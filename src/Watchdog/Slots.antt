-- ===== src/Watchdog/Slots.antt =====
-- The list of user/watchdog.c as a sequence: adding appends, removing deletes the first with the id.
use meter_logger.Prelude.{
  ℕ, zero, suc, ◌%◌, ◌^◌, ◌≤◌, ◌≡◌, ◌⊎◌, inl, inr, refl, Bool-cases, ◌==◌, sym, subst, Bool, true,
  false, if◌then◌else◌, List, [], ◌∷◌, ◌++◌, length, get_or, take, arith,
}
use meter_logger.Clock.{get_uptime}
use meter_logger.Watchdog.{
  Watchdog, WatchdogType, empty_slot, Watchdogs, init_watchdog, add_watchdog, find_id, shift_down,
  remove_watchdog,
}

-- The watchdogs of the list.
abbrev pub watchdogs : Watchdogs → List Watchdog
watchdogs s = take s.watchdog_list_len s.watchdog_list

-- The list has two slots, and those that are not in use are zeros.
abbrev pub IsList : Watchdogs → Type 0
IsList s =
    (length s.watchdog_list ≡ 2)
    × (s.watchdog_list_len ≤ 2)
    × (s.watchdog_list_len ≤ 0 → get_or s.watchdog_list 0 empty_slot ≡ empty_slot)
    × (s.watchdog_list_len ≤ 1 → get_or s.watchdog_list 1 empty_slot ≡ empty_slot)

-- Deletes the first watchdog with the id.
abbrev pub delete : ℕ → List Watchdog → List Watchdog
delete id [] = []
delete id (w ∷ l) = if w.id == id then l else w ∷ delete id l

-- A watchdog has the id.
abbrev pub has : ℕ → List Watchdog → Bool
has id [] = false
has id (w ∷ l) = if w.id == id then true else has id l

pub init_watchdog-IsList :
    (s : Watchdogs) → IsList (init_watchdog s) × (watchdogs (init_watchdog s) ≡ [])
unfolding init_watchdog
init_watchdog-IsList s = ((refl, omega arith, (λ h. refl), (λ h. refl)), refl)

-- The state with another list.
abbrev put : Watchdogs → List Watchdog → ℕ → Watchdogs
put s l n = record s { watchdog_list = l; watchdog_list_len = n }

shapes :
    (P : Watchdogs → Type 0) (s : Watchdogs)
    → P (put s (empty_slot ∷ empty_slot ∷ []) 0)
    → ((a : Watchdog) → P (put s (a ∷ empty_slot ∷ []) 1))
    → ((a b : Watchdog) → P (put s (a ∷ b ∷ []) 2))
    → (l : List Watchdog) (n : ℕ) → IsList (put s l n)
    → P (put s l n)
shapes P s p q r [] n h = absurd (omega (arith, h.0))
shapes P s p q r (a ∷ []) n h = absurd (omega (arith, h.0))
shapes P s p q r (a ∷ b ∷ c ∷ l) n h = absurd (omega (arith, h.0))
shapes P s p q r (a ∷ b ∷ []) zero h =
    subst (λ a. P (put s (a ∷ b ∷ []) 0)) (sym (h.2 (omega arith)))
      (subst (λ b. P (put s (empty_slot ∷ b ∷ []) 0)) (sym (h.3 (omega arith))) p)
shapes P s p q r (a ∷ b ∷ []) (suc zero) h =
    subst (λ b. P (put s (a ∷ b ∷ []) 1)) (sym (h.3 (omega arith))) (q a)
shapes P s p q r (a ∷ b ∷ []) (suc (suc zero)) h = r a b
shapes P s p q r (a ∷ b ∷ []) (suc (suc (suc n))) h = absurd (omega (arith, h.1))

-- The slot of a new watchdog.
abbrev pub new : ℕ → WatchdogType → ℕ → ℕ → Watchdog
new id type timeout up = record {
  id = id;
  type = type;
  timeout = timeout;
  last_reset = up % 2 ^ 32;
}

-- Adding appends to the watchdogs while there are less than two, and otherwise refuses and changes nothing.
pub add_watchdog_lem :
    (raw id timeout : ℕ) (type : WatchdogType) (s : Watchdogs)
    → IsList s
    → let r = add_watchdog raw id type timeout s in
      IsList r.1
      × (((r.0 ≡ true)
            × (length (watchdogs s) ≤ 1)
            × (watchdogs r.1 ≡ watchdogs s ++ new id type timeout (get_uptime raw s.clock).0 ∷ []))
          ⊎ ((r.0 ≡ false) × (length (watchdogs s) ≡ 2) × (r.1 ≡ s)))
unfolding add_watchdog
add_watchdog_lem raw id timeout type s h =
    let P = λ (s : Watchdogs).
      let r = add_watchdog raw id type timeout s in
      IsList r.1
      × (((r.0 ≡ true)
            × (length (watchdogs s) ≤ 1)
            × (watchdogs r.1 ≡ watchdogs s ++ new id type timeout (get_uptime raw s.clock).0 ∷ []))
          ⊎ ((r.0 ≡ false) × (length (watchdogs s) ≡ 2) × (r.1 ≡ s))) in
    shapes P s
      ((refl, omega arith, (λ h. absurd (omega arith)), (λ h. refl)), inl (refl, omega arith, refl))
      (λ a. (
        (refl, omega arith, (λ h. absurd (omega arith)), (λ h. absurd (omega arith))),
        inl (refl, omega arith, refl),
      ))
      (λ a b. (
        (refl, omega arith, (λ h. absurd (omega arith)), (λ h. absurd (omega arith))),
        inr (refl, refl, refl),
      ))
      s.watchdog_list s.watchdog_list_len h

-- The answer and the list after a removal.
abbrev Removes : ℕ → Watchdogs → Type 0
Removes id s =
    let r = remove_watchdog id s in
    IsList r.1 × (r.0 ≡ has id (watchdogs s)) × (watchdogs r.1 ≡ delete id (watchdogs s))

-- Removing deletes the first watchdog with the id, answers whether there is one, and keeps the slots that
-- are not in use at zeros.
pub remove_watchdog_lem : (id : ℕ) (s : Watchdogs) → IsList s → Removes id s
unfolding remove_watchdog find_id shift_down
remove_watchdog_lem id s h =
    shapes (Removes id) s ((refl, omega arith, (λ h. refl), (λ h. refl)), refl, refl)
      (λ a. elim (Bool-cases (a.id == id)) [
        | inl e ↦
            rw (remove_watchdog, find_id, e)
              ((refl, omega arith, (λ h. refl), (λ h. refl)), refl, refl)
        | inr e ↦
            rw (remove_watchdog, find_id, e)
              ((refl, omega arith, (λ h. absurd (omega arith)), (λ h. refl)), refl, refl)
      ])
      (λ a b. elim (Bool-cases (a.id == id)) [
        | inl e ↦
            rw (remove_watchdog, find_id, e)
              ((refl, omega arith, (λ h. absurd (omega arith)), (λ h. refl)), refl, refl)
        | inr e ↦ elim (Bool-cases (b.id == id)) [
          | inl f ↦
              rw (remove_watchdog, find_id, e, f)
                ((refl, omega arith, (λ h. absurd (omega arith)), (λ h. refl)), refl, refl)
          | inr f ↦
              rw (remove_watchdog, find_id, e, f)
                (
                  (refl, omega arith, (λ h. absurd (omega arith)), (λ h. absurd (omega arith))),
                  refl,
                  refl,
                )
        ]
      ])
      s.watchdog_list s.watchdog_list_len h
