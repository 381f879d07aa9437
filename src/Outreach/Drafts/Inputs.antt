-- ===== src/Outreach/Drafts/Inputs.antt =====
-- What `createDraft` checked (src/outreach/draft-store.ts): a draft's inputs are current when it is
-- stored.
use scraplify.Base.{
  ◌≡◌, refl, subst, true, Option, none, some, ◌==◌, nat_eq, list_eq, option_eq, Text, eq_of_beq,
  arith,
}
use scraplify.Outreach.Model.{
  OutreachDraft, Store, BoundContent, ListingRevision, ListingPointer,
  recipient_from_application_method,
}
use scraplify.Outreach.Transactions.{
  done, find_listing, find_profile, find_opportunity, is_profile_current, is_opportunity_current,
  is_listing_current, bound_inputs_staleness,
}
use scraplify.Outreach.Creation.{
  CreateDraftInput, create_draft, create_for_listing, new_draft, find_current_revision,
}
use scraplify.Outreach.Drafts.Rows.{find-true}

module _ (content_hash : BoundContent → Text) where
  -- What the last part of `createDraft` checked and made.
  pub create_for_listing-checked :
      (new_id : Text) (i : CreateDraftInput) (r : Option ListingRevision) (s t : Store)
      (draft : OutreachDraft)
      → create_for_listing content_hash new_id i r s ≡ done draft t
      → (revision : ListingRevision) × (r ≡ some revision)
        × (revision.id ≡ i.source_listing_revision_id)
        × (new_draft new_id i (recipient_from_application_method revision.application_method)
            ≡ draft)
  unfolding create_for_listing
  create_for_listing-checked new_id i none s t draft e = cc
  create_for_listing-checked new_id i (some r) s t draft e =
      let same : (r.id == i.source_listing_revision_id) ≡ true = ground arith in
      (r, refl, eq_of_beq _ _ same, ground arith)

  pub create_draft-checked :
      (new_id : Text) (i : CreateDraftInput) (s t : Store) (draft : OutreachDraft)
      → create_draft content_hash new_id i s ≡ done draft t
      → (is_profile_current i.profile_id i.profile_version (find_profile i.profile_id s) ≡ true)
        × (is_opportunity_current i.opportunity_revision_id (find_opportunity i.opportunity_id s)
            ≡ true)
        × (create_for_listing content_hash new_id i
              (find_current_revision (find_listing i.source_listing_id s) s)
              s
            ≡ done draft t)
  unfolding create_draft
  create_draft-checked new_id i s t draft e = (ground arith, ground arith, ground arith)

  listing_is_current :
      (l : Option ListingPointer) (s : Store) (r : ListingRevision)
      → find_current_revision l s ≡ some r
      → is_listing_current r.id l ≡ true
  listing_is_current none s r e = cc
  listing_is_current (some l) s r e =
      find-true (λ (x : ListingRevision). l.current_revision_id == some x.id) s.revisions r e

  staleness-none :
      (d : OutreachDraft) (s : Store)
      → is_profile_current d.profile_id d.profile_version (find_profile d.profile_id s) ≡ true
      → is_opportunity_current d.opportunity_revision_id (find_opportunity d.opportunity_id s)
        ≡ true
      → is_listing_current d.source_listing_revision_id (find_listing d.source_listing_id s) ≡ true
      → bound_inputs_staleness d s ≡ none
  unfolding bound_inputs_staleness
  staleness-none d s p o l = rw (p, o, l) refl

  pub create_draft-fresh :
      (new_id : Text) (i : CreateDraftInput) (s t : Store) (draft : OutreachDraft)
      → create_draft content_hash new_id i s ≡ done draft t
      → bound_inputs_staleness draft s ≡ none
  create_draft-fresh new_id i s t draft e =
      let (profile, opportunity, rest) = create_draft-checked new_id i s t draft e in
      let (r, found, same, made) = create_for_listing-checked new_id i _ s t draft rest in
      let listing : is_listing_current i.source_listing_revision_id
            (find_listing i.source_listing_id s)
          ≡ true =
        subst (λ (id : Text). is_listing_current id (find_listing i.source_listing_id s) ≡ true)
          same (listing_is_current (find_listing i.source_listing_id s) s r found) in
      subst (λ (d : OutreachDraft). bound_inputs_staleness d s ≡ none) made
        (staleness-none
          (new_draft new_id i (recipient_from_application_method r.application_method)) s profile
          opportunity listing)
