-- ===== src/Store/Usb/Holders.antt =====
-- Which computer `usbHolderOf` names.
use mathlib.Core.Option.{some-injective}
use desk_control.Common.{
  String, true, false, ◌&&◌, List, [], ◌∷◌, none, some, Dict, lookup, NodupKeys, ◌≡◌, ◌≢◌, inl, inr,
  refl, ap, subst, arith, Memᴰ, contains, string_eq, if◌then◌else◌, to_lower_case, Bool-cases,
}
use desk_control.Store.{DeskStore}
use desk_control.Store.Usb.{Holder, speaks, holders_among, holder_of_list, usb_holder_of}

module _ (s : DeskStore) (wanted : String) where
  -- The computer's report lists the device, and its agent is online.
  abbrev pub Enumerates : Dict String (List String) → String → Type 0
  Enumerates reports c =
      (devices : List String) × Memᴰ (c, devices) reports
      × (contains devices wanted ≡ true)
      × (speaks s c ≡ true)

  holders_among_complete :
      (reports : Dict String (List String)) (c : String)
      → Enumerates reports c
      → Memᴰ c (holders_among s wanted reports)
  unfolding holders_among
  holders_among_complete [] c h = elim h.1 [ ]
  holders_among_complete ((i, ds) ∷ rest) c (devices, Memᴰ.head e, has, online) =
      let same_id : c ≡ i = ap (λ t. t.0) e in
      let same_devices : devices ≡ ds = ap (λ t. t.1) e in
      let hit : (contains ds wanted && speaks s i) ≡ true = ground arith in
      rw hit (Memᴰ.head same_id)
  holders_among_complete ((i, ds) ∷ rest) c (devices, Memᴰ.tail m, has, online) =
      let later = holders_among_complete rest c (devices, m, has, online) in
      elim (Bool-cases (contains ds wanted && speaks s i)) [
        | inl e ↦ rw e (Memᴰ.tail later)
        | inr e ↦ rw e later
      ]

  holders_among_sound :
      (reports : Dict String (List String)) (c : String)
      → Memᴰ c (holders_among s wanted reports)
      → Enumerates reports c
  unfolding holders_among
  holders_among_sound [] c m = elim m [ ]
  holders_among_sound ((i, ds) ∷ rest) c m = elim (Bool-cases (contains ds wanted && speaks s i)) [
    | inl e ↦
        elim (subst
          (λ b. Memᴰ c (if b then i ∷ holders_among s wanted rest else holders_among s wanted rest))
          e m) [
            | Memᴰ.head same ↦ (ds, Memᴰ.head (ap (λ x. (x, ds)) same), ground arith, ground arith)
            | Memᴰ.tail m' ↦
                let (devices, here, has, online) = holders_among_sound rest c m' in
                (devices, Memᴰ.tail here, has, online)
          ]
    | inr e ↦
        let m' =
          subst
            (λ b.
              Memᴰ c (if b then i ∷ holders_among s wanted rest else holders_among s wanted rest))
            e m in
        let (devices, here, has, online) = holders_among_sound rest c m' in
        (devices, Memᴰ.tail here, has, online)
  ]

abbrev Distinct : List String → Type 0
Distinct [] = Unit
Distinct (c ∷ cs) = (¬ (Memᴰ c cs)) × Distinct cs

listed :
    (reports : Dict String (List String)) (c : String) (devices : List String)
    → Memᴰ (c, devices) reports
    → lookup c reports ≢ none
unfolding lookup
listed [] c devices m e = elim m [ ]
listed ((i, ds) ∷ rest) c devices (Memᴰ.head same) e =
    let same_id : c ≡ i = ap (λ t. t.0) same in ground arith
listed ((i, ds) ∷ rest) c devices (Memᴰ.tail m) e =
    let later = listed rest c devices m in ground arith

holders_among-Distinct :
    (s : DeskStore) (wanted : String) (reports : Dict String (List String))
    → NodupKeys reports
    → Distinct (holders_among s wanted reports)
unfolding holders_among
holders_among-Distinct s wanted [] once = tt
holders_among-Distinct s wanted ((i, ds) ∷ rest) once =
    elim (Bool-cases (contains ds wanted && speaks s i)) [
      | inl e ↦ rw e (
        λ m.
            let (devices, here, _, _) = holders_among_sound s wanted rest i m in
            listed rest i devices here once.0,
        holders_among-Distinct s wanted rest once.1,
      )
      | inr e ↦ rw e (holders_among-Distinct s wanted rest once.1)
    ]

-- What the two fields of a `Holder` say of the computers that hold a device.
pub record Accounts (Holds : String → Type 0) (h : Holder) : Type 0 where
  pub sole : (c : String) → h.computer_id ≡ some c → Holds c × ((d : String) → Holds d → d ≡ c)
  pub nobody : h.computer_id ≡ none → h.ambiguous ≡ false → (d : String) → ¬ (Holds d)
  pub disputed :
      h.ambiguous ≡ true
      → (h.computer_id ≡ none) × ((c : String) × (d : String) × (c ≢ d) × Holds c × Holds d)

holder_of_list-Accounts :
    (Holds : String → Type 0) (cs : List String)
    → ((c : String) → Memᴰ c cs → Holds c)
    → ((c : String) → Holds c → Memᴰ c cs)
    → Distinct cs
    → Accounts Holds (holder_of_list cs)
holder_of_list-Accounts Holds [] sound complete apart = record {
  sole = λ c e. cc;
  nobody = λ e f d h. elim (complete d h) [ ];
  disputed = λ e. cc;
}
holder_of_list-Accounts Holds (c ∷ []) sound complete apart = record {
  sole = λ d e.
      subst (λ x. Holds x × ((y : String) → Holds y → y ≡ x)) (some-injective _ _ e)
        (sound c (Memᴰ.head refl), λ y h. only y (complete y h));
  nobody = λ e. cc;
  disputed = λ e. cc;
}
  where
    only : (y : String) → Memᴰ y (c ∷ []) → y ≡ c
    only y (Memᴰ.head e) = e
    only y (Memᴰ.tail m) = elim m [ ]
holder_of_list-Accounts Holds (c ∷ d ∷ cs) sound complete apart = record {
  sole = λ d e. cc;
  nobody = λ e f. cc;
  disputed = λ e. (
    refl,
    (
      c,
      d,
      λ same. apart.0 (Memᴰ.head same),
      sound c (Memᴰ.head refl),
      sound d (Memᴰ.tail (Memᴰ.head refl)),
    ),
  );
}

-- Where each computer has one report: a computer is named as the holder of a USB device only where it
-- is the one online computer whose report lists the device (in lower case); the account is ambiguous
-- only where two different ones report it, and then none is named; and where none is named without
-- that ambiguity, no online computer reports it.
pub usb_holder_of-Accounts :
    (s : DeskStore) (usb_id : String)
    → NodupKeys s.usb_by_computer
    → Accounts (Enumerates s (to_lower_case usb_id) s.usb_by_computer) (usb_holder_of s usb_id)
unfolding usb_holder_of
usb_holder_of-Accounts s usb_id once =
    let wanted = to_lower_case usb_id in
    holder_of_list-Accounts _ (holders_among s wanted s.usb_by_computer)
      (holders_among_sound s wanted s.usb_by_computer)
      (holders_among_complete s wanted s.usb_by_computer)
      (holders_among-Distinct s wanted s.usb_by_computer once)
