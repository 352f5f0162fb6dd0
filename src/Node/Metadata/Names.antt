-- ===== src/Node/Metadata/Names.antt =====
-- node-api/src/metadata.rs: after `try_from`, pallets and storage entries are kept by their names.
use substrate_api_client.Prelude.{
  ◌≡◌, refl, sym, ◌∙◌, ap, String, Bool-cases, inl, inr, List, [], ◌∷◌, Option, none, some, ok,
  >>=-open, ok-inj,
}
use substrate_api_client.Decoder.Registry.{PortableRegistry}
use substrate_api_client.Node.Maps.{
  BTreeMap, Key, get, insert, get-insert_same, get-insert_other, text,
}
use substrate_api_client.Node.Runtime.{Pallet, StorageEntry, RuntimeMetadataV14, v14, meta_reserved}
use substrate_api_client.Node.Metadata.Types.{Metadata, PalletMetadata}
use substrate_api_client.Node.Metadata.Collect.{
  insert_all, collect_calls, collect_storage, collect_pallet, collect_pallets, collect_variants,
  event_entry, error_entry, collect_metadata, try_from,
}

module _ {K V : Type 0} (key : Key K) (P : K → V → Type 0) where
  -- Every value that is found has the property for its key.
  abbrev pub Everywhere : BTreeMap K V → Type 0
  Everywhere m = (k : K) (v : V) → get key k m ≡ some v → P k v

  Everywhere-[] : Everywhere []
  unfolding get
  Everywhere-[] k v h = cc

  Everywhere-insert :
      (k : K) (v : V) (m : BTreeMap K V) → P k v → Everywhere m → Everywhere (insert key k v m)
  Everywhere-insert k v m p every j w h = elim (Bool-cases (key.same j k)) [
    | inl e ↦
        let q = (key.same_iff j k).0 e in
        let s : some v ≡ some w =
          sym (get-insert_same key k v m) ∙ ap (λ x. get key x (insert key k v m)) (sym q) ∙ h in
        let t : v ≡ w = cc in rw (q, ← t) p
    | inr e ↦ every j w (sym (get-insert_other key j k v m e) ∙ h)
  ]

  Everywhere-insert_all :
      {A : Type 0} (k : A → K) (v : A → V)
      → ((a : A) → P (k a) (v a))
      → (xs : List A) (m : BTreeMap K V) → Everywhere m
      → Everywhere (insert_all key k v xs m)
  unfolding insert_all
  Everywhere-insert_all k v p [] m every = every
  Everywhere-insert_all k v p (a ∷ xs) m every =
      Everywhere-insert_all k v p xs (insert key (k a) (v a) m)
        (Everywhere-insert (k a) (v a) m (p a) every)

-- A pallet's storage entries are kept by their names.
abbrev pub NamedEntries : PalletMetadata → Type 0
NamedEntries p = Everywhere text (λ name e. e.name ≡ name) p.storage

abbrev pub IsNamed : String → PalletMetadata → Type 0
IsNamed name p = (p.name ≡ name) × NamedEntries p

module _ (types : PortableRegistry) where
  collect_storage-named :
      (s : Option (List StorageEntry))
      → Everywhere text (λ name e. e.name ≡ name) (collect_storage types s)
  unfolding collect_storage
  collect_storage-named none = Everywhere-[] text (λ name e. e.name ≡ name)
  collect_storage-named (some entries) =
      Everywhere-insert_all text (λ name e. e.name ≡ name) (λ e. e.name) (λ e. e) (λ e. refl)
        entries [] (Everywhere-[] text (λ name e. e.name ≡ name))

  collect_pallet-IsNamed :
      (p : Pallet) (q : PalletMetadata) → collect_pallet types p ≡ ok q → IsNamed p.name q
  unfolding collect_pallet
  collect_pallet-IsNamed p q h =
      >>=-open (collect_calls types p.calls) _ h
        (λ calls a b. rw (← ok-inj b) (refl, collect_storage-named p.storage))

  -- What holds of every pallet that is collected from one of the node's holds of all that are found.
  collect_pallets-Everywhere :
      (P : String → PalletMetadata → Type 0)
      → ((p : Pallet) (q : PalletMetadata) → collect_pallet types p ≡ ok q → P p.name q)
      → (ps : List Pallet) (m n : BTreeMap String PalletMetadata) → Everywhere text P m
      → collect_pallets types ps m ≡ ok n
      → Everywhere text P n
  unfolding collect_pallets
  collect_pallets-Everywhere P each [] m n every h = rw (← ok-inj h) every
  collect_pallets-Everywhere P each (p ∷ ps) m n every h =
      >>=-open (collect_pallet types p) _ h (λ q a b.
        collect_pallets-Everywhere P each ps (insert text p.name q m) n
          (Everywhere-insert text P p.name q m (each p q a) every) b)

module _ (r : RuntimeMetadataV14) (m : Metadata) (h : try_from (meta_reserved, v14 r) ≡ ok m) where
  pub try_from-Everywhere :
      (P : String → PalletMetadata → Type 0)
      → ((p : Pallet) (q : PalletMetadata) → collect_pallet r.types p ≡ ok q → P p.name q)
      → Everywhere text P m.pallets
  unfolding try_from collect_metadata
  try_from-Everywhere P each = >>=-open (collect_pallets r.types r.pallets []) _ h (λ ps a h₁.
      >>=-open (collect_variants r.types (λ p. p.event) event_entry r.pallets []) _ h₁ (λ es b h₂.
        >>=-open (collect_variants r.types (λ p. p.error) error_entry r.pallets []) _ h₂ (λ fs c h₃.
          let q : ps ≡ m.pallets = ap (λ x. x.pallets) (ok-inj h₃) in
          rw (← q)
            (collect_pallets-Everywhere r.types P each r.pallets [] ps (Everywhere-[] text P) a))))

  -- After `try_from`, every pallet and every storage entry of it is found under its own name only.
  pub try_from-IsNamed : Everywhere text IsNamed m.pallets
  try_from-IsNamed = try_from-Everywhere IsNamed (collect_pallet-IsNamed r.types)
