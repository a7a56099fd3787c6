-- ===== src/Adapter/Dispatcher/Negotiation.antt =====
-- What `initialize` of src/ucf/adapter_protocol/dispatcher.py negotiates.
use ucf.Prelude.Dict.{get}
use ucf.Prelude.{
  String, ◌≡◌, refl, ◌∙◌, ap, Bool, true, false, ◌&&◌, none, some, List, [], ◌∷◌, map, ◌==◌, nat_eq,
  nat_beq_iff, string_eq, text_order, length, contains, contains-sorted_by, contains-selected, any,
  ◌⊎◌, Option-cases, >>=-eq-ok, filter, All, All-sorted_by, IsUnique, length-to_set_iff, to_set,
  sorted_by, map-sorted_by, sorted_by-IsIncreasing, IsIncreasing, ok, arith, Bool-cases, inl, inr,
}
use ucf.Adapter.Models.{adapter_protocol_version, CapabilityRequest, AdapterCapability}
use ucf.Adapter.Versioning.{version_at_least}
use ucf.Adapter.Dispatcher.{new, Dispatcher, capability_name, supported_version, select, negotiate}

abbrev pub request_name : CapabilityRequest → String
request_name requirement = requirement.name

-- The request is for an offered capability in a version that is new enough.
unfoldable pub is_supported : List (String × String) → CapabilityRequest → Bool
is_supported offered requirement = elim (get offered requirement.name) [
  | none ↦ false
  | some version ↦ version_at_least version requirement.minimum_version
]

module _ (offered : List (String × String)) where
  -- What the loop does with one request: it leaves an optional one out, or selects the offered version.
  abbrev LeftOut : CapabilityRequest → List CapabilityRequest → List AdapterCapability → Type 0
  LeftOut r rs selected =
      (is_supported offered r ≡ false) × (r.required ≡ false) × (select offered rs ≡ ok selected)

  record Selected (r : CapabilityRequest) (rs : List CapabilityRequest)
      (selected : List AdapterCapability) : Type 0 where
    pub version : String
    pub rest : List AdapterCapability
    pub supported : is_supported offered r ≡ true
    pub offered_version : get offered r.name ≡ some version
    pub selected_rest : select offered rs ≡ ok rest
    pub extended : selected ≡ record { name = r.name; version = version } ∷ rest

  supported_version-some :
      (r : CapabilityRequest) (version : String)
      → supported_version offered r ≡ some version
      → (is_supported offered r ≡ true) × (get offered r.name ≡ some version)
  unfolding supported_version is_supported
  supported_version-some r version e = (ground arith, ground arith)

  supported_version-none :
      (r : CapabilityRequest) → supported_version offered r ≡ none → is_supported offered r ≡ false
  unfolding supported_version is_supported
  supported_version-none r e = ground arith

  select-cons :
      (r : CapabilityRequest) (rs : List CapabilityRequest) (selected : List AdapterCapability)
      → select offered (r ∷ rs) ≡ ok selected
      → LeftOut r rs selected ⊎ Selected r rs selected
  unfolding select
  select-cons r rs selected e = elim (Option-cases (supported_version offered r)) [
    | inl missing ↦ inl (supported_version-none r missing, ground arith, ground arith)
    | inr (version, found) ↦
        let (supported, offered_version) = supported_version-some r version found in
        let (rest, selected_rest, extended) =
          >>=-eq-ok (select offered rs)
            (λ rest. ok (record { name = r.name; version = version } ∷ rest)) {result = selected}
            (ground arith) in
        inr (record {
          version = version;
          rest = rest;
          supported = supported;
          offered_version = offered_version;
          selected_rest = selected_rest;
          extended = ground arith;
        })
  ]

  select-names :
      (requirements : List CapabilityRequest) (selected : List AdapterCapability)
      → select offered requirements ≡ ok selected
      → map capability_name selected ≡ map request_name (filter (is_supported offered) requirements)
  unfolding select
  select-names [] selected e = ground arith
  select-names (r ∷ rs) selected e = elim (select-cons r rs selected e) [
    | inl (unsupported, _, same) ↦ rw unsupported (select-names rs selected same)
    | inr s ↦
        rw (s.extended)
          (rw (s.supported) (ap (λ names. r.name ∷ names) (select-names rs s.rest s.selected_rest)))
  ]

  select-versions :
      (requirements : List CapabilityRequest) (selected : List AdapterCapability)
      → select offered requirements ≡ ok selected
      → All (λ (c : AdapterCapability). get offered c.name ≡ some c.version) selected
  unfolding select
  select-versions [] [] e = tt
  select-versions [] (_ ∷ _) e = absurd (ground arith)
  select-versions (r ∷ rs) selected e = elim (select-cons r rs selected e) [
    | inl (_, _, same) ↦ select-versions rs selected same
    | inr s ↦ rw (s.extended) (s.offered_version, select-versions rs s.rest s.selected_rest)
  ]

  select-required :
      (requirements : List CapabilityRequest) (selected : List AdapterCapability)
      → select offered requirements ≡ ok selected
      → All
          (λ (r : CapabilityRequest). r.required ≡ true → is_supported offered r ≡ true)
          requirements
  select-required [] selected e = tt
  select-required (r ∷ rs) selected e = elim (select-cons r rs selected e) [
    | inl (_, optional, same) ↦
        (λ required. absurd (ground arith), select-required rs selected same)
    | inr s ↦ (λ _. s.supported, select-required rs s.rest s.selected_rest)
  ]

  IsUnique-supported :
      (requirements : List CapabilityRequest)
      → IsUnique (map request_name requirements)
      → IsUnique (map request_name (filter (is_supported offered) requirements))
  IsUnique-supported [] u = tt
  IsUnique-supported (r ∷ rs) u = elim (Bool-cases (is_supported offered r)) [
    | inr e ↦ rw e (IsUnique-supported rs u.1)
    | inl e ↦ rw e (contains-unselected rs r.name u.0, IsUnique-supported rs u.1)
  ]
    where
      contains-unselected :
          (rs : List CapabilityRequest) (name : String)
          → contains (map request_name rs) name ≡ false
          → contains (map request_name (filter (is_supported offered) rs)) name ≡ false
      contains-unselected [] name m = refl
      contains-unselected (r ∷ rs) name m = ground (arith, contains-unselected rs name)

-- Negotiation succeeds only for a new session and the protocol version of the dispatcher. The
-- capabilities it gives are in the order of their names and are those requested that are offered in a
-- new enough version, in the offered version; each required request is among them.
pub negotiate-supported :
    (d : Dispatcher) (version : String) (requirements : List CapabilityRequest)
    (capabilities : List AdapterCapability)
    → negotiate d version requirements ≡ ok capabilities
    → (d.state ≡ new)
      × (version ≡ adapter_protocol_version)
      × IsIncreasing (map capability_name capabilities)
      × ((name : String)
          → contains (map capability_name capabilities) name
            ≡ any (λ r. is_supported d.offered r && name == request_name r) requirements)
      × All (λ (c : AdapterCapability). get d.offered c.name ≡ some c.version) capabilities
      × All
          (λ (r : CapabilityRequest). r.required ≡ true → is_supported d.offered r ≡ true)
          requirements
unfolding negotiate
negotiate-supported d version requirements capabilities e =
    let (selected, same, sorted) = chosen e in
    let names = select-names d.offered requirements selected same in
    let unique = (length-to_set_iff (map request_name requirements)).0 (
      (nat_beq_iff (length (map request_name requirements))
          (length (to_set (map request_name requirements)))).0
        (ground arith)) in
    let ids =
      ap (map capability_name) sorted
      ∙ map-sorted_by capability_name selected
      ∙ ap (sorted_by (λ k. k)) names in
    (
      ground arith,
      (string_eq.beq_iff version adapter_protocol_version).0 (ground arith),
      rw ids (
          sorted_by-IsIncreasing (map request_name (filter (is_supported d.offered) requirements))
            (IsUnique-supported d.offered requirements unique)),
      λ name.
          ap (λ ids. contains ids name) ids
          ∙ contains-sorted_by (map request_name (filter (is_supported d.offered) requirements))
              name
          ∙ contains-selected request_name (is_supported d.offered) requirements name,
      rw sorted (
          All-sorted_by capability_name _ selected
            (select-versions d.offered requirements selected same)),
      select-required d.offered requirements selected same,
    )
  where
    chosen :
        negotiate d version requirements ≡ ok capabilities
        → (selected : List AdapterCapability) × (select d.offered requirements ≡ ok selected)
          × (capabilities ≡ sorted_by capability_name selected)
    chosen e =
        let (selected, same, end) =
          >>=-eq-ok (select d.offered requirements)
            (λ selected. ok (sorted_by capability_name selected)) {result = capabilities}
            (ground arith) in
        (selected, same, ground arith)
