-- ===== src/Decoder/Encode/Writer.antt =====
-- The bytes that a call appends to the buffer, with its result.
use substrate_api_client.Prelude.{◌++◌, [], Bytes, Result, ok, err, panic, out_of_fuel}

abbrev pub Written : Type 0 → Type 0
Written E = Bytes × Result E (Unit {0})

abbrev pub written : {E : Type 0} → Bytes → Written E
written w = (w, ok tt)

abbrev pub failed : {E : Type 0} → E → Written E
failed e = ([], err e)

-- `f(…)?; g(…)`
abbrev pub followed : {E : Type 0} → Written E → Written E → Written E
followed (w, ok _) (w', r) = (w ++ w', r)
followed (w, err e) k = (w, err e)
followed (w, panic) k = (w, panic)
followed (w, out_of_fuel) k = (w, out_of_fuel)

-- `if f(…).is_err() { return Err(e) }`
abbrev pub or_fail : {E F : Type 0} → F → Written E → Written F
or_fail e (w, ok u) = (w, ok u)
or_fail e (w, err _) = (w, err e)
or_fail e (w, panic) = (w, panic)
or_fail e (w, out_of_fuel) = (w, out_of_fuel)
