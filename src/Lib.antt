-- ===== src/Lib.antt =====
-- The firmware of MeterLogger, which reads heat and water meters over their optical or serial interface
-- and sends the values over MQTT from an ESP8266.
--
-- The program is a set of handlers that the SDK calls: a byte from the UART goes into a FIFO, a task takes
-- the frame out and decodes it, timers run the jobs and the watchdogs, and messages are encrypted before
-- they are sent. A handler is a function from the state of its file to the next state here; what other
-- files do stands in a list of calls, or is an argument.
--
-- Prelude: what the modules share. Arrays and strings of C are lists of numbers, a write outside an array
-- changes nothing or is an error of its own; the numbers of w bits wrap at 2 ^ w where the code can
-- reach that.
-- Sdk: the timers and the radio's mode of the Espressif SDK.
-- Crc: `ccit_crc16` of user/utils.c.
-- Kmp: user/kamstrup/kmp.c. Frame has the state (`kmp_frame`, its length) and the byte stuffing, Request
-- the `kmp_get_*` functions, Response `kmp_decode_frame`, whose buffer has KMP_FRAME_L = 1024 bytes; none
-- stands for a write past the registers of the response. Values has `kmp_value_to_string` and
-- `kmp_unit_to_string`. Wire describes a frame as it is sent, Encoding the registers as the meter encodes them.
-- Kmp/Session: the other half of user/kamstrup/kmp_request.c, the requests, the timers and the handler of what is
-- received, with the interrupt of driver/uart.c, and the events, of which a run is a list. The formats of
-- tinyprintf are parameters. The loop over the FIFO has fuel for the room in the array that it fills.
-- Fifo: Ring has the FIFOs of user/kamstrup/kmp_request.c and user/en61107/en61107_request.c, with the index
-- arithmetic of QUEUE_SIZE = 256; Queue is the queue that they stand for.
-- En61107: user/en61107/en61107.c. Its file has the response and the setters, Telegram the parser of the
-- telegram, whose loop has fuel for the characters of the list, Standard the parsers of the lines. A char
-- array of the response is the text that it holds; tinyprintf is a parameter, with floats as words.
-- En61107/Session: the other half of user/en61107/en61107_request.c. Its file has the variables, the requests
-- and the timers, Task the handler of what is received, with the interrupt of driver/uart.c, and the
-- events, of which a run is a list. Sample has the text that is published. A loop over the FIFO has fuel
-- for the room in the array that it fills, which is more than the FIFO holds.
-- Cron: user/cron/cron.c. Dst and Job have the tests of the time, Timer has `minute_timer_func`,
-- `cron_init`, `clear_cron_jobs` and `cron_destroy`. The loop over the jobs has fuel for the number of jobs at
-- its start, which only `clear_cron` changes, to 0. `gmtime` is a parameter. Commands describes what the jobs do.
-- Clock: user/unix_time.c. What SNTP answers is an argument.
-- Watchdog: user/watchdog.c, without the LED. It holds the clock, since it asks for the uptime. Its loops
-- have fuel for the two slots, or for the slots in use.
-- Crypto: user/crypto/crypto.c. AES-CBC and HMAC-SHA256 are parameters; Laws states what is relied on: the
-- lengths, and that decryption inverts encryption on whole blocks.
-- Escape: the hexadecimal digits and, in Query, the escapes of query strings of user/utils.c, on the text
-- before the NUL.
-- Decimal: `int_pow`, `decimal_number_length` and `multiply_str_by_1000` of user/utils.c on numbers that are
-- not negative; ten rounds are enough for the digits of 32 bits.
-- Ac: user/ac/ac_out.c in all its builds, with the levels of GPIO14 and GPIO15.
-- Led: user/led.c, with its timers and the level of GPIO2, and the events, of which a run is a list.
-- Config: modules/config.c, with the configuration as the bytes before its checksum; what the flash holds
-- after a save is a parameter.
-- Ota: user/ota.c. State has the variables and a list of the calls of the flash and of rBoot, and one of all
-- other calls. What is called answers by the calls so far, so that a flash and a network are any functions of
-- them. Http reads the header of an answer, Url the address; Start, Connect, Body, Receive, Complete and Retry are the
-- handlers, and Run the events, of which a run is a list. The loop over the header has fuel for its
-- characters, and the loop over the flash for one pass more than the chunks of what was received. An image is what
-- the calls of the flash have written behind the address of the ROM, up to the sector that was erased or the address
-- at which the writer was started last.
-- Wifi: modules/wifi.c. State has the variables and what the SDK answers while a handler runs; Network chooses the
-- network, Scan is the scanner, Station the events of the station, Trial and Setup the test of a network and
-- what other files call. A run is a list of events, each with what is answered then.
--
-- Not modelled: the builds for a flow meter and without a meter, user/mqtt_rpc.c and user/user_main.c; the
-- packet filter of modules/wifi.c, on the structures of lwIP; the drivers, which are access to registers of
-- the hardware; and the copies of other libraries (mqtt, esphttpd, tinyprintf, the ciphers). The output for
-- debugging is left out everywhere.
pub mod Prelude
pub mod Sdk
pub mod Crc
pub mod Led
pub mod Ota
pub mod Wifi
pub mod Kmp
pub mod Fifo
pub mod Cron
pub mod Ac
pub mod Clock
pub mod Watchdog
pub mod Crypto
pub mod En61107
pub mod Escape
pub mod Config
pub mod Decimal
