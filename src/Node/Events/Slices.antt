-- ===== src/Node/Events/Slices.antt =====
-- Slices of byte strings, with Rust's bounds checks.
use substrate_api_client.Prelude.{
  ℕ, zero, suc, ap, ◌∙◌, true, ◌+◌, ◌-◌, ◌≤◌, ◌≡◌, List, [], ◌∷◌, ◌++◌, Bytes, length, take, drop,
  get_elem?, none, some,
}
use substrate_api_client.Prelude.{
  leb, ◌&&◌, if◌then◌else◌, Result, ok, panic, arith, length-append, drop-append, take-append,
}

-- `&bytes[a..b]`
unfoldable pub slice : {E : Type 0} → Bytes → ℕ → ℕ → Result E Bytes
slice bytes a b =
    if leb a b && leb b (length bytes) then ok (take (b - a) (drop a bytes)) else panic

-- `&bytes[a..]`
unfoldable pub slice_from : {E : Type 0} → Bytes → ℕ → Result E Bytes
slice_from bytes a = if leb a (length bytes) then ok (drop a bytes) else panic

-- `bytes[i - k]`: a subtraction below 0 panics as well.
unfoldable pub byte_before : {E : Type 0} → Bytes → ℕ → ℕ → Result E ℕ
byte_before bytes i k =
    if leb k i then (elim (get_elem? bytes (i - k)) [ none ↦ panic | some b ↦ ok b ]) else panic

pub leb_of : (a b : ℕ) → a ≤ b → leb a b ≡ true
leb_of a b h = ground arith

pub le_of : (a b : ℕ) → leb a b ≡ true → a ≤ b
le_of a b h = ground arith

length-drop :
    {A : Type 0} (i : ℕ) (xs : List A) → i ≤ length xs → length (drop i xs) + i ≡ length xs
length-drop zero xs h = omega arith
length-drop (suc i) [] h = omega arith
length-drop (suc i) (x ∷ xs) h = omega (arith, length-drop i xs (omega arith))

drop-drop :
    {A : Type 0} (i j : ℕ) (xs : List A) → i ≤ length xs → drop (i + j) xs ≡ drop j (drop i xs)
drop-drop zero j xs h = let e : 0 + j ≡ j = omega arith in rw e
drop-drop (suc i) j [] h = absurd (omega arith)
drop-drop (suc i) j (x ∷ xs) h =
    let e : suc i + j ≡ suc (i + j) = omega arith in rw e (drop-drop i j xs (omega arith))

get-drop :
    {A : Type 0} (i : ℕ) (xs ys : List A) (y : A) → drop i xs ≡ y ∷ ys → get_elem? xs i ≡ some y
get-drop zero (x ∷ xs) ys y h = ground (arith, h)
get-drop zero [] ys y h = cc
get-drop (suc i) [] ys y h = cc
get-drop (suc i) (x ∷ xs) ys y h = get-drop i xs ys y h

-- What stands in `all` behind the first `s` bytes and `w`.
module _ (all : Bytes) (s : ℕ) (fits : s ≤ length all) (w : Bytes) where
  pub room : (x : Bytes) → drop s all ≡ w ++ x → s + length w + length x ≡ length all
  room x e = omega (arith, length-drop s all fits, ap (λ l. length l) e, length-append w x)

  pub behind : (x : Bytes) → drop s all ≡ w ++ x → drop (s + length w) all ≡ x
  behind x e = drop-drop s (length w) all fits ∙ ap (drop (length w)) e ∙ drop-append w x

  pub slice_of :
      {E : Type 0} (x r : Bytes) (a b : ℕ)
      → drop s all ≡ w ++ (x ++ r)
      → a ≡ s + length w
      → b ≡ a + length x
      → slice {E = E} all a b ≡ ok x
  unfolding slice
  slice_of x r a b e ea eb =
      let n = room (x ++ r) e in
      let h : b ≤ length all = omega (arith, length-append x r) in
      let k : b - a ≡ length x = omega arith in
      let d : drop a all ≡ x ++ r = rw ea (behind (x ++ r) e) in
      rw (leb_of a b (omega arith), leb_of b (length all) h) (rw (k, d) (rw (take-append x r)))

  pub byte_of :
      {E : Type 0} (y : ℕ) (r : Bytes) (i k : ℕ)
      → drop s all ≡ w ++ (y ∷ r)
      → i ≡ s + length w + k
      → byte_before {E = E} all i k ≡ ok y
  unfolding byte_before
  byte_of y r i k e ei =
      let j : i - k ≡ s + length w = omega arith in
      let g : get_elem? all (s + length w) ≡ some y = get-drop _ all r y (behind (y ∷ r) e) in
      rw (leb_of k i (omega arith)) (rw j (rw g))

  -- The index that the length of the input left gives.
  pub index_of : (x : Bytes) → drop s all ≡ w ++ x → length all - length x ≡ s + length w
  index_of x e = let n = room x e in omega arith
