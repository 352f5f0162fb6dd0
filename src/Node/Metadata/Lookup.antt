-- ===== src/Node/Metadata/Lookup.antt =====
-- node-api/src/metadata.rs: what the lookups by pallet and variant index find.
use mathlib.Core.List.{Memᴰ}
use mathlib.Core.List.Memᴰ.{head, tail}
use substrate_api_client.Prelude.{
  ℕ, ◌≡◌, refl, sym, ◌∙◌, ap, ◌⊎◌, inl, inr, Bool-cases, Option-cases,
}
use substrate_api_client.Prelude.{List, [], ◌∷◌, Option, some, ok, >>=-eq-ok, arith}
use substrate_api_client.Decoder.Registry.{TypeId, PortableRegistry, VariantType}
use substrate_api_client.Node.Maps.{
  BTreeMap, Key, get, insert, u8_pair, get-insert_same, get-insert_other,
}
use substrate_api_client.Node.Runtime.{Pallet}
use substrate_api_client.Node.Metadata.Collect.{
  insert_all, index_in, get_type_def_variant, collect_variants,
}

-- Inserting all of a list: what was there or is inserted is found, and nothing else.
module _ {K A V : Type 0} (key : Key K) (k : A → K) (v : A → V) where
  insert_all-keeps :
      (xs : List A) (m : BTreeMap K V) (j : K) (e : V)
      → get key j m ≡ some e
      → (f : V) × (get key j (insert_all key k v xs m) ≡ some f)
  unfolding insert_all
  insert_all-keeps [] m j e h = (e, h)
  insert_all-keeps (x ∷ xs) m j e h = elim (Bool-cases (key.same j (k x))) [
    | inl s ↦
        let q : j ≡ k x = (key.same_iff j (k x)).0 s in
        insert_all-keeps xs _ j (v x) (rw q (get-insert_same key (k x) (v x) m))
    | inr d ↦ insert_all-keeps xs _ j e (get-insert_other key j (k x) (v x) m d ∙ h)
  ]

  insert_all-adds :
      (xs : List A) (m : BTreeMap K V) {x : A}
      → Memᴰ x xs
      → (f : V) × (get key (k x) (insert_all key k v xs m) ≡ some f)
  unfolding insert_all
  insert_all-adds [] m t = elim t [ ]
  insert_all-adds (x ∷ xs) m (head e) =
      rw e (insert_all-keeps xs _ (k x) (v x) (get-insert_same key (k x) (v x) m))
  insert_all-adds (x ∷ xs) m (tail t) = insert_all-adds xs _ t

  pub insert_all-only :
      (xs : List A) (m : BTreeMap K V) (j : K) {e : V}
      → get key j (insert_all key k v xs m) ≡ some e
      → (get key j m ≡ some e) ⊎ ((x : A) × Memᴰ x xs × (k x ≡ j) × (v x ≡ e))
  unfolding insert_all
  insert_all-only [] m j h = inl h
  insert_all-only (x ∷ xs) m j h = elim (insert_all-only xs _ j h) [
    | inr (y, t, a, b) ↦ inr (y, tail t, a, b)
    | inl g ↦ elim (Bool-cases (key.same j (k x))) [
      | inr d ↦ inl (sym (get-insert_other key j (k x) (v x) m d) ∙ g)
      | inl s ↦
          let q : j ≡ k x = (key.same_iff j (k x)).0 s in
          let same : get key j (insert key (k x) (v x) m) ≡ some (v x) =
            rw q (get-insert_same key (k x) (v x) m) in
          inr (x, head refl, sym q, cc)
    ]
  ]

-- A variant of an enum type that a pallet of the list names with `ty`.
pub record Declares (types : PortableRegistry) (ty : Pallet → Option TypeId) (ps : List Pallet)
    (p : Pallet) (v : VariantType) : Type 0 where
  pub pallet_listed : Memᴰ p ps
  pub id : TypeId
  pub named : ty p ≡ some id
  pub variants : List VariantType
  pub resolved : get_type_def_variant types id ≡ ok variants
  pub variant_listed : Memᴰ v variants

module _ {V : Type 0} (types : PortableRegistry) (ty : Pallet → Option TypeId)
    (entry : Pallet → VariantType → V) where
  collect_variants-keeps :
      (ps : List Pallet) (m m₂ : BTreeMap (ℕ × ℕ) V) (j : ℕ × ℕ) (e : V)
      → collect_variants types ty entry ps m ≡ ok m₂
      → get u8_pair j m ≡ some e
      → (f : V) × (get u8_pair j m₂ ≡ some f)
  unfolding collect_variants
  collect_variants-keeps [] m m₂ j e h g = let q : m ≡ m₂ = ground (arith, h) in (e, rw (← q) g)
  collect_variants-keeps (p ∷ ps) m m₂ j e h g = elim (Option-cases (ty p)) [
    | inl n ↦ collect_variants-keeps ps m m₂ j e (rw (n, collect_variants) at h) g
    | inr (id, s) ↦
        let (vs, q, r) =
          >>=-eq-ok (get_type_def_variant types id) _ (rw (s, collect_variants) at h) in
        let (f, k) = insert_all-keeps u8_pair (index_in p) (entry p) vs m j e g in
        collect_variants-keeps ps _ m₂ j f r k
  ]

  pub collect_variants-adds :
      (ps : List Pallet) (m m₂ : BTreeMap (ℕ × ℕ) V) (p : Pallet) (v : VariantType) (id : TypeId)
      (vs : List VariantType)
      → collect_variants types ty entry ps m ≡ ok m₂
      → Memᴰ p ps
      → ty p ≡ some id
      → get_type_def_variant types id ≡ ok vs
      → Memᴰ v vs
      → (f : V) × (get u8_pair (index_in p v) m₂ ≡ some f)
  unfolding collect_variants
  collect_variants-adds [] m m₂ p v id vs h a n t l = elim a [ ]
  collect_variants-adds (x ∷ ps) m m₂ p v id vs h (head a) n t l =
      let n₂ : ty x ≡ some id = ap ty (sym a) ∙ n in
      let (ws, q, r) =
        >>=-eq-ok (get_type_def_variant types id) _ (rw (n₂, collect_variants) at h) in
      let same : vs ≡ ws = cc in
      let (f, k) = insert_all-adds u8_pair (index_in x) (entry x) ws m {x = v} (rw (← same) l) in
      rw a (collect_variants-keeps ps _ m₂ (index_in x v) f r k)
  collect_variants-adds (x ∷ ps) m m₂ p v id vs h (tail a) n t l = elim (Option-cases (ty x)) [
    | inl e ↦ collect_variants-adds ps m m₂ p v id vs (rw (e, collect_variants) at h) a n t l
    | inr (i, e) ↦
        let (ws, q, r) =
          >>=-eq-ok (get_type_def_variant types i) _ (rw (e, collect_variants) at h) in
        collect_variants-adds ps _ m₂ p v id vs r a n t l
  ]

  pub collect_variants-only :
      (ps : List Pallet) (m m₂ : BTreeMap (ℕ × ℕ) V) (j : ℕ × ℕ) (e : V)
      → collect_variants types ty entry ps m ≡ ok m₂
      → get u8_pair j m₂ ≡ some e
      → (get u8_pair j m ≡ some e)
        ⊎ ((p : Pallet) × (v : VariantType) × Declares types ty ps p v
            × (index_in p v ≡ j)
            × (entry p v ≡ e))
  unfolding collect_variants
  collect_variants-only [] m m₂ j e h g = let q : m ≡ m₂ = ground (arith, h) in inl (rw q g)
  collect_variants-only (x ∷ ps) m m₂ j e h g = elim (Option-cases (ty x)) [
    | inl n ↦ elim (collect_variants-only ps m m₂ j e (rw (n, collect_variants) at h) g) [
      | inl o ↦ inl o
      | inr (p, v, d, a, b) ↦ inr (p, v, later x d, a, b)
    ]
    | inr (id, s) ↦
        let (vs, q, r) =
          >>=-eq-ok (get_type_def_variant types id) _ (rw (s, collect_variants) at h) in
        elim (collect_variants-only ps _ m₂ j e r g) [
          | inr (p, v, d, a, b) ↦ inr (p, v, later x d, a, b)
          | inl o ↦ elim (insert_all-only u8_pair (index_in x) (entry x) vs m j o) [
            | inl i ↦ inl i
            | inr (v, l, a, b) ↦ inr (
              x,
              v,
              record {
                pallet_listed = head refl;
                id = id;
                named = s;
                variants = vs;
                resolved = q;
                variant_listed = l;
              },
              a,
              b,
            )
          ]
        ]
  ]
    where
      later :
          (x : Pallet) {p : Pallet} {v : VariantType} {ps : List Pallet}
          → Declares types ty ps p v
          → Declares types ty (x ∷ ps) p v
      later x d = record {
        pallet_listed = tail d.pallet_listed;
        id = d.id;
        named = d.named;
        variants = d.variants;
        resolved = d.resolved;
        variant_listed = d.variant_listed;
      }
