-- ===== src/Decoder/RoundTrip/Lookup.antt =====
-- `position` with `swap_remove` finds values by name, and leaves the other names findable.
use substrate_api_client.Prelude.{◌≡◌, refl, sym, ◌∙◌, ◌≢◌, String, true, false, Option, none, some}
use substrate_api_client.Prelude.{
  List, [], ◌∷◌, ◌++◌, arith, All, str_eq, eq_iff, if◌then◌else◌, Bool-cases, inl, inr,
}
use substrate_api_client.Decoder.Encode.Named.{last_of, but_last, refill, take_named}
use mathlib.Core.Path.{subst}

module _ {A : Type 0} where
  -- The value of a name: the first that has it.
  abbrev pub find_named : String → List (String × A) → Option A
  find_named n [] = none
  find_named n ((m, a) ∷ l) = if str_eq n m then some a else find_named n l

  abbrev pub IsFresh : String → List (String × A) → Type 0
  IsFresh n = All (λ p. p.0 ≢ n)

  abbrev pub NodupNames : List (String × A) → Type 0
  NodupNames [] = Unit
  NodupNames ((n, a) ∷ l) = IsFresh n l × NodupNames l

  -- Every entry of `l` is what `vals` has under its name.
  abbrev pub Covers : List (String × A) → List (String × A) → Type 0
  Covers vals = All (λ p. find_named p.0 vals ≡ some p.1)

  pub Covers-cons :
      (n : String) (a : A) (vals l : List (String × A))
      → IsFresh n l
      → Covers vals l
      → Covers ((n, a) ∷ vals) l
  Covers-cons n a vals [] h c = tt
  Covers-cons n a vals ((m, b) ∷ l) (h, hs) (c, cs) =
      (ground (arith, eq_iff m n), Covers-cons n a vals l hs cs)

  pub Covers-self : (l : List (String × A)) → NodupNames l → Covers l l
  Covers-self [] h = tt
  Covers-self ((n, a) ∷ l) (h, hs) =
      (ground (arith, eq_iff n n), Covers-cons n a l l h (Covers-self l hs))

  IsFresh-end :
      (n m : String) (a : A) (l : List (String × A))
      → IsFresh n (l ++ ((m, a) ∷ []))
      → (m ≢ n) × IsFresh n l
  IsFresh-end n m a [] (h, _) = (h, tt)
  IsFresh-end n m a (x ∷ l) (h, hs) = let (e, r) = IsFresh-end n m a l hs in (e, (h, r))

  NodupNames-end :
      (m : String) (a : A) (l : List (String × A))
      → NodupNames (l ++ ((m, a) ∷ []))
      → NodupNames ((m, a) ∷ l)
  NodupNames-end m a [] h = (tt, tt)
  NodupNames-end m a ((n, b) ∷ l) (h, hs) =
      let (e, f) = IsFresh-end n m a l h in
      let (g, d) = NodupNames-end m a l hs in (((λ p. e (sym p)), g), (f, d))

  find_named_end :
      (k m : String) (a : A) (l : List (String × A))
      → NodupNames (l ++ ((m, a) ∷ []))
      → find_named k ((m, a) ∷ l) ≡ find_named k (l ++ ((m, a) ∷ []))
  find_named_end k m a [] h = refl
  find_named_end k m a ((n, b) ∷ l) (h, hs) =
      let e : m ≢ n = (IsFresh-end n m a l h).0 in
      ground (arith, e, find_named_end k m a l hs, eq_iff k m, eq_iff k n)

  split_last : (x : A) (xs : List A) → x ∷ xs ≡ but_last x xs ++ (last_of x xs ∷ [])
  unfolding last_of but_last
  split_last x [] = refl
  split_last x (y ∷ ys) = λ i. x ∷ split_last y ys i

refill_lem :
    {A : Type 0} (l : List (String × A))
    → NodupNames l
    → NodupNames (refill l) × ((k : String) → find_named k (refill l) ≡ find_named k l)
unfolding refill
refill_lem [] h = (tt, λ k. refl)
refill_lem (y ∷ ys) h =
    let (m, a) = last_of y ys in
    let e = split_last y ys in
    let h' : NodupNames (but_last y ys ++ (last_of y ys ∷ [])) = subst NodupNames e h in
    (NodupNames-end m a (but_last y ys) h', λ k. find_named_end k m a (but_last y ys) h' ∙ rw (← e))

-- What taking `n` gives: its value, and a rest in which the other names are as before.
abbrev pub Takes : {A : Type 0} → String → A → List (String × A) → Type 0
Takes {A} n a vals =
    (rest : List (String × A)) × (take_named n vals ≡ some (a, rest))
    × NodupNames rest
    × ((k : String) → k ≢ n → find_named k rest ≡ find_named k vals)

take_named-head :
    {A : Type 0} (n m : String) (a : A) (l : List (String × A))
    → str_eq n m ≡ true
    → take_named n ((m, a) ∷ l) ≡ some (a, refill l)
unfolding take_named
take_named-head n m a l h = ground arith

take_named-tail :
    {A : Type 0} (n m : String) (a b : A) (l rest : List (String × A))
    → str_eq n m ≡ false
    → take_named n l ≡ some (b, rest)
    → take_named n ((m, a) ∷ l) ≡ some (b, (m, a) ∷ rest)
unfolding take_named
take_named-tail n m a b l rest h e = ground arith

IsFresh-of_absent :
    {A : Type 0} (n : String) (l : List (String × A)) → find_named n l ≡ none → IsFresh n l
IsFresh-of_absent n [] h = tt
IsFresh-of_absent n ((m, a) ∷ l) h =
    (ground (arith, eq_iff n m), IsFresh-of_absent n l (ground arith))

absent_of_IsFresh :
    {A : Type 0} (n : String) (l : List (String × A)) → IsFresh n l → find_named n l ≡ none
absent_of_IsFresh n [] h = refl
absent_of_IsFresh n ((m, a) ∷ l) (h, hs) = ground (arith, eq_iff n m, absent_of_IsFresh n l hs)

pub take_named_lem :
    {A : Type 0} (n : String) (a : A) (vals : List (String × A))
    → NodupNames vals
    → find_named n vals ≡ some a
    → Takes n a vals
take_named_lem n a [] d h = cc
take_named_lem {A} n a ((m, b) ∷ l) (f, d) h = elim (Bool-cases (str_eq n m)) [
  | inl same ↦
      let (d', keep) = refill_lem l d in
      (
        refill l,
        take_named-head n m b l same ∙ ground arith,
        d',
        λ k ne. keep k ∙ ground (arith, ne, eq_iff n m, eq_iff k m),
      )
  | inr differ ↦
      let (rest, e, d', keep) = take_named_lem n a l d (ground arith) in
      let absent : find_named m rest ≡ none =
        keep m (λ p. ground (arith, eq_iff n m)) ∙ absent_of_IsFresh m l f in
      (
        (m, b) ∷ rest,
        take_named-tail n m b a l rest differ e,
        (IsFresh-of_absent m rest absent, d'),
        λ k ne. ground (arith, keep k ne),
      )
]

-- Entries of other names are still found in what is left.
pub Covers-keep :
    {A : Type 0} (n : String) (vals vals' l : List (String × A))
    → ((k : String) → k ≢ n → find_named k vals' ≡ find_named k vals)
    → IsFresh n l
    → Covers vals l
    → Covers vals' l
Covers-keep n vals vals' [] keep f c = tt
Covers-keep n vals vals' ((m, a) ∷ l) keep (f, fs) (c, cs) =
    (keep m f ∙ c, Covers-keep n vals vals' l keep fs cs)
