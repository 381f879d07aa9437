-- ===== src/Adapters/Refetch/Fingerprints.antt =====
-- A fingerprint that was recorded is found by the next run (src/adapters/refetch.ts).
use scraplify.Base.{
  ℕ, ◌≡◌, refl, Bool, true, false, not, ◌&&◌, Option, none, some, List, [], ◌∷◌, String, string_eq,
  ◌==◌, if◌then◌else◌, has, lookup, is_none, arith, eq_of_beq, beq_refl, Bool-cases, inl, inr,
}
use scraplify.Adapters.Refetch.{
  KnownListing, fetch_detail, skip, is_left, needs_detail_fetch, DiscoveryRow, set_known, load_each,
  load_known_listings, is_recorded, has_record_id, stamp, set_discovery_fingerprint,
}

-- What recording does to what is known of the listing: one without a revision stays as it is.
abbrev pub recorded : String → Option KnownListing → Option KnownListing
recorded fingerprint none = none
recorded fingerprint (some k) =
    some (if is_none k.current_revision_id then k else stamp fingerprint k)

-- What recording `id` does to what is known of `j`.
abbrev pub seen_from : String → String → String → Option KnownListing → Option KnownListing
seen_from id fingerprint j k = if j == id then recorded fingerprint k else k

module _ (source_id : String) (ids : List String) (id fingerprint : String) where
  -- What is known of the row's own id after the update of the row.
  abbrev Stamped : DiscoveryRow → DiscoveryRow → Option String → Type 0
  Stamped r r' none = Unit
  Stamped r r' (some k) =
      (r.source_id == source_id) ≡ true → some r'.known ≡ seen_from id fingerprint k (some r.known)

  set_known-lookup :
      (r r' : DiscoveryRow) (own : Option String) (j : String) (m m' : List (String × KnownListing))
      → r'.source_id ≡ r.source_id
      → Stamped r r' own
      → lookup j m' ≡ seen_from id fingerprint j (lookup j m)
      → lookup j (set_known source_id ids r' own m')
        ≡ seen_from id fingerprint j (lookup j (set_known source_id ids r own m))
  set_known-lookup r r' none j m m' e s h = h
  set_known-lookup r r' (some k) j m m' e s h =
      elim (Bool-cases ((r.source_id == source_id) && has k ids)) [
        | inr unread ↦ rw (e, unread) h
        | inl read ↦ elim (Bool-cases (j == k)) [
          | inr another ↦ rw (e, read, another) h
          | inl same ↦
              let own : j ≡ k = eq_of_beq j k same in rw (e, read, same) (rw own (s (ground arith)))
        ]
      ]

  kept-Stamped :
      (r : DiscoveryRow) (own : Option String)
      → r.source_record_id ≡ own
      → is_recorded source_id id r ≡ false
      → Stamped r r own
  kept-Stamped r none e h = tt
  kept-Stamped r (some k) e h = λ source. elim (Bool-cases (k == id)) [
    | inr another ↦ rw another refl
    | inl same ↦
        let bare : is_none r.known.current_revision_id ≡ true = ground (arith, rw e at h) in
        rw (same, bare) refl
  ]

  recorded-Stamped :
      (r : DiscoveryRow) (own : Option String)
      → r.source_record_id ≡ own
      → is_recorded source_id id r ≡ true
      → Stamped r (record r { known = stamp fingerprint r.known }) own
  recorded-Stamped r none e h = tt
  recorded-Stamped r (some k) e h = λ source.
      let parts : ((r.source_id == source_id)
            && has_record_id (some k) id
            && not (is_none r.known.current_revision_id))
          ≡ true =
        rw e at h in
      let same : (k == id) ≡ true = ground arith in
      let fetched : is_none r.known.current_revision_id ≡ false = ground arith in
      rw (same, fetched) refl

  load_each-lookup :
      (rows : List DiscoveryRow) (j : String) (m m' : List (String × KnownListing))
      → lookup j m' ≡ seen_from id fingerprint j (lookup j m)
      → lookup j
          (load_each source_id ids (set_discovery_fingerprint source_id id fingerprint rows) m')
        ≡ seen_from id fingerprint j (lookup j (load_each source_id ids rows m))
  unfolding load_each set_discovery_fingerprint
  load_each-lookup [] j m m' h = h
  load_each-lookup (r ∷ rows) j m m' h = elim (Bool-cases (is_recorded source_id id r)) [
    | inl hit ↦ rw hit (
        load_each-lookup rows j _ _ (
          set_known-lookup r (record r { known = stamp fingerprint r.known }) r.source_record_id j m
            m' refl (recorded-Stamped r r.source_record_id refl hit) h))
    | inr miss ↦ rw miss (
        load_each-lookup rows j _ _ (
          set_known-lookup r r r.source_record_id j m m' refl
            (kept-Stamped r r.source_record_id refl miss) h))
  ]

-- Whether the listing is one whose fingerprint decides.
abbrev pub compares : Option KnownListing → Bool
compares none = false
compares (some k) = not (is_none k.current_revision_id) && not (is_left k.status)

skip-recorded :
    (k : Option KnownListing) (fingerprint found : String) (now : ℕ)
    → needs_detail_fetch (recorded fingerprint k) (some found) now
      ≡ (if compares k && (fingerprint == found) then skip else fetch_detail)
unfolding needs_detail_fetch
skip-recorded none fingerprint found now = refl
skip-recorded (some k) fingerprint found now = elim (Bool-cases (is_none k.current_revision_id)) [
  | inl bare ↦ rw (bare, bare) refl
  | inr fetched ↦ elim (Bool-cases (is_left k.status)) [
    | inl left ↦ rw (fetched, fetched, left) refl
    | inr here ↦ rw (fetched, fetched, here) refl
  ]
]

-- After a fingerprint was recorded for a listing, the next run that finds the listing skips its
-- detail page exactly when it finds that fingerprint, the listing has a current revision and it
-- is neither closed nor quarantined; otherwise it fetches the page. What the run knows of every
-- other listing is as before.
pub set_discovery_fingerprint-skips :
    (source_id id fingerprint found : String) (ids : List String) (rows : List DiscoveryRow)
    (now : ℕ)
    → let before = load_known_listings source_id ids rows in
      let after =
        load_known_listings source_id ids
          (set_discovery_fingerprint source_id id fingerprint rows) in
      (needs_detail_fetch (lookup id after) (some found) now
        ≡ (if compares (lookup id before) && (fingerprint == found) then skip else fetch_detail))
      × ((j : String) → (j == id) ≡ false → lookup j after ≡ lookup j before)
unfolding load_known_listings
set_discovery_fingerprint-skips source_id id fingerprint found ids rows now =
    let own : lookup id
          (load_each source_id ids (set_discovery_fingerprint source_id id fingerprint rows) [])
        ≡ recorded fingerprint (lookup id (load_each source_id ids rows [])) =
      rw (beq_refl id) at
        (load_each-lookup source_id ids id fingerprint rows id [] [] (rw (beq_refl id) refl)) in
    (
      rw own (skip-recorded (lookup id (load_each source_id ids rows [])) fingerprint found now),
      λ j other.
          rw other at (load_each-lookup source_id ids id fingerprint rows j [] [] (rw other refl)),
    )
