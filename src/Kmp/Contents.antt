-- ===== src/Kmp/Contents.antt =====
-- What the frame buffer of user/kamstrup/kmp.c holds, as a list: the view in which the requests and
-- the decoder are specified, and how each step of the code changes it.
use meter_logger.Prelude.{
  ℕ, zero, suc, ◌+◌, ◌-◌, ◌*◌, ◌≤◌, ◌<◌, ◌≡◌, refl, sym, ap, ◌∙◌, List, [], ◌∷◌, ◌++◌, length,
  length-append, length-set, length-copy_to, get_or, take, drop, set, copy_to, take-set,
  take-copy_to, take-take, take-append, arith,
}
use meter_logger.Kmp.Frame.{
  Kmp, frame_l, dst_idx, payload, copy_back, stuff_bytes, kmp_byte_stuff, unstuff_bytes,
  kmp_byte_unstuff, kmp_crc16,
}
use meter_logger.Kmp.Stuffing.{length-stuff_bytes, length-le-stuff_bytes}
use meter_logger.Crc.{ccit_crc16}

-- `kmp_frame[0..kmp_frame_length)` is the list, in an array of KMP_FRAME_L bytes or more.
pub record Holds (k : Kmp) (content : List ℕ) : Type 0 where
  pub room : frame_l ≤ length k.frame
  pub size : k.frame_length ≡ length content
  pub bytes : take k.frame_length k.frame ≡ content

take-drop_one :
    (f : List ℕ) (n x : ℕ) (p : List ℕ)
    → n ≡ length p + 1
    → take n f ≡ x ∷ p
    → take (length p) (drop 1 f) ≡ p
take-drop_one [] zero x p e h = cc
take-drop_one [] (suc n) x p e h = cc
take-drop_one (y ∷ f) zero x p e h = cc
take-drop_one (y ∷ f) (suc n) x p e h =
    let n_is : n ≡ length p = omega arith in rw (← n_is) (ap (drop 1) h)

-- What stands behind the start byte.
pub payload_lem : (k : Kmp) {x : ℕ} {p : List ℕ} → Holds k (x ∷ p) → payload k ≡ p
payload_lem k {x} {p} h =
    let n_is : k.frame_length - 1 ≡ length p = omega (arith, h.size) in
    rw n_is (take-drop_one k.frame k.frame_length x p (omega (arith, h.size)) h.bytes)

-- The first bytes of what stands behind the start byte.
prefix_lem :
    (k : Kmp) (m : ℕ) {x : ℕ} {p : List ℕ}
    → Holds k (x ∷ p)
    → m ≤ length p
    → take m (drop dst_idx k.frame) ≡ take m p
prefix_lem k m {x} {p} h fits =
    sym (take-take (drop 1 k.frame) m (length p) fits)
    ∙ ap (take m) (take-drop_one k.frame k.frame_length x p (omega (arith, h.size)) h.bytes)

-- `kmp_crc16` sums the `kmp_data_length` bytes behind the start byte.
pub kmp_crc16_lem :
    (k : Kmp) {x : ℕ} (body rest : List ℕ)
    → Holds k (x ∷ (body ++ rest))
    → k.data_length ≡ length body
    → kmp_crc16 k ≡ ccit_crc16 0 body
unfolding kmp_crc16
kmp_crc16_lem k body rest h e = rw e (
    ap (ccit_crc16 0) (
      prefix_lem k (length body) h (omega (arith, length-append body rest))
      ∙ take-append body rest (length body) refl))

-- A byte written just behind the content.
pub put_end :
    (k : Kmp) (b : ℕ) {c : List ℕ}
    → Holds k c
    → k.frame_length < length k.frame
    → Holds
        (record k { frame = set k.frame k.frame_length b; frame_length = k.frame_length + 1 })
        (c ++ b ∷ [])
put_end k b {c} h fits = record {
  room = omega (arith, h.room, length-set k.frame k.frame_length b);
  size = omega (arith, h.size, length-append c (b ∷ []));
  bytes =
      take-set k.frame k.frame_length (k.frame_length + 1) b refl fits
      ∙ ap (λ t. t ++ b ∷ []) h.bytes;
}

copied :
    (k : Kmp) (out : List ℕ)
    → 0 < length out
    → length out < frame_l
    → copy_back k out ≡ record {
      frame = copy_to k.frame dst_idx out;
      frame_length = length out + dst_idx;
      data_length = length out;
    }
unfolding copy_back
copied k out some_bytes fits = ground arith

-- Copying back replaces what stands behind the start byte, if it is not empty and fits.
pub copy_back_lem :
    (k : Kmp) (out : List ℕ) {x : ℕ} {p : List ℕ}
    → Holds k (x ∷ p)
    → 0 < length out
    → length out < frame_l
    → Holds (copy_back k out) (x ∷ out)
copy_back_lem k out {x} {p} h some_bytes fits = rw (copied k out some_bytes fits) (record {
  room = omega (arith, h.room, length-copy_to k.frame 1 out);
  size = omega arith;
  bytes =
      take-copy_to k.frame 1 (length out + 1) out (omega arith) (omega (arith, h.room))
      ∙ ap (λ t. t ++ out) first;
})
  where
    first : take 1 k.frame ≡ x ∷ []
    first = sym (take-take k.frame 1 k.frame_length (omega (arith, h.size))) ∙ ap (take 1) h.bytes

-- `kmp_byte_stuff` stuffs all that stands behind the start byte, which must be at most half the room.
pub kmp_byte_stuff_lem :
    (k : Kmp) {x : ℕ} (p : List ℕ)
    → Holds k (x ∷ p)
    → 0 < length p
    → 2 * length p < frame_l
    → Holds (kmp_byte_stuff k) (x ∷ stuff_bytes p)
kmp_byte_stuff_lem k p h some_bytes fits =
    rw (stuffed, payload_lem k h)
      (copy_back_lem k (stuff_bytes p) h (omega (arith, length-le-stuff_bytes p))
        (omega (arith, length-stuff_bytes p)))
  where
    stuffed : kmp_byte_stuff k ≡ copy_back k (stuff_bytes (payload k))
    stuffed = unfold kmp_byte_stuff in refl

-- `kmp_byte_unstuff` of a frame, by what unstuffing gives for the bytes behind the start byte.
pub kmp_byte_unstuff_lem :
    (k : Kmp) {x : ℕ} (p out : List ℕ)
    → Holds k (x ∷ p)
    → ((behind : ℕ) → unstuff_bytes behind p ≡ out)
    → 0 < length out
    → length out < frame_l
    → Holds (kmp_byte_unstuff k) (x ∷ out)
kmp_byte_unstuff_lem k p out h gives some_bytes fits =
    rw (unstuffed, payload_lem k h, gives _) (copy_back_lem k out h some_bytes fits)
  where
    unstuffed :
        kmp_byte_unstuff k
        ≡ copy_back k (unstuff_bytes (get_or k.frame k.frame_length 0) (payload k))
    unstuffed = unfold kmp_byte_unstuff in refl
