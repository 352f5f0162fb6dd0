-- ===== src/Node/Maps.antt =====
-- `BTreeMap` of Rust's standard library: the entries, kept in the order of their keys.
use Prim.Native.Char.{code}
use Prim.Native.String.{String}
use substrate_api_client.Prelude.{
  ℕ, ◌≡◌, refl, sym, ◌∙◌, ap, ◌↔◌, inl, inr, Bool, true, false, ◌&&◌, ◌||◌, arith,
}
use substrate_api_client.Prelude.{
  Option, none, some, List, [], ◌∷◌, ltb, ◌==◌, ==_refl, if◌then◌else◌, Bool-cases, str_eq, eq_iff,
}

-- The order of the keys, `Ord`; equal keys are the same key.
pub record Key (K : Type 0) : Type 0 where
  pub same : K → K → Bool
  pub before : K → K → Bool
  pub same_iff : (a b : K) → (same a b ≡ true) ↔ (a ≡ b)

abbrev pub BTreeMap : Type 0 → Type 0 → Type 0
BTreeMap K V = List (K × V)

module _ {K : Type 0} (key : Key K) where
  same_refl : (k : K) → key.same k k ≡ true
  same_refl k = (key.same_iff k k).1 refl

module _ {K V : Type 0} (key : Key K) where
  unfoldable pub get : K → BTreeMap K V → Option V
  get k [] = none
  get k ((l, v) ∷ m) = let rest = get k m in if key.same k l then some v else rest

  -- An entry with the same key is replaced.
  unfoldable pub insert : K → V → BTreeMap K V → BTreeMap K V
  insert k v [] = (k, v) ∷ []
  insert k v ((l, u) ∷ m) =
      let rest = insert k v m in
      if key.same k l
      then (k, v) ∷ m
      else if key.before k l
      then (k, v) ∷ (l, u) ∷ m
      else (l, u) ∷ rest

  pub get-insert_same : (k : K) (v : V) (m : BTreeMap K V) → get k (insert k v m) ≡ some v
  unfolding get insert
  get-insert_same k v [] = rw (same_refl key k)
  get-insert_same k v ((l, u) ∷ m) = elim (Bool-cases (key.same k l)) [
    | inl e ↦ rw (e, get) (rw (same_refl key k))
    | inr e ↦ elim (Bool-cases (key.before k l)) [
      | inl b ↦ rw (e, b, get) (rw (same_refl key k))
      | inr b ↦ rw (e, b, get) (rw e (get-insert_same k v m))
    ]
  ]

  pub get-insert_other :
      (j k : K) (v : V) (m : BTreeMap K V) → key.same j k ≡ false → get j (insert k v m) ≡ get j m
  unfolding get insert
  get-insert_other j k v [] ne = rw ne
  get-insert_other j k v ((l, u) ∷ m) ne = elim (Bool-cases (key.same k l)) [
    | inl e ↦
        let f : k ≡ l = (key.same_iff k l).0 e in
        let ne₂ : key.same j l ≡ false = (ap (λ x. key.same j x) (sym f)) ∙ ne in
        rw (e, get) (rw (ne, ne₂))
    | inr e ↦ elim (Bool-cases (key.before k l)) [
      | inl b ↦ rw (e, b, get) (rw ne)
      | inr b ↦ rw (e, b, get) (rw (get-insert_other j k v m ne))
    ]
  ]

pub same_pair : (a b : ℕ × ℕ) → (((a.0 == b.0) && (a.1 == b.1)) ≡ true) ↔ (a ≡ b)
same_pair a b = (
  λ h. let e : a.0 ≡ b.0 = ground arith in let f : a.1 ≡ b.1 = ground arith in both_parts e f,
  λ h. rw (h, ==_refl b.0, ==_refl b.1),
)
  where
    both_parts : {a b : ℕ × ℕ} → a.0 ≡ b.0 → a.1 ≡ b.1 → a ≡ b
    both_parts e f = λ i. (e i, f i)

-- Pairs of bytes, in lexicographic order.
abbrev pub u8_pair : Key (ℕ × ℕ)
u8_pair = record {
  same = λ a b. (a.0 == b.0) && (a.1 == b.1);
  before = λ a b. ltb a.0 b.0 || ((a.0 == b.0) && ltb a.1 b.1);
  same_iff = same_pair;
}

unfoldable pub str_before : String → String → Bool
str_before s String.[] = false
str_before String.[] (String.◌∷◌ d t) = true
str_before (String.◌∷◌ c s) (String.◌∷◌ d t) =
    let rest = str_before s t in ltb (code c) (code d) || ((code c == code d) && rest)

unfoldable pub text : Key String
unfolding str_before
text = record { same = str_eq; before = str_before; same_iff = eq_iff }
