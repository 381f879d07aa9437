-- ===== src/Outreach/Creation.antt =====
-- Storing a new draft (`createDraft` of src/outreach/draft-store.ts), as a transaction. The hash of
-- what an approval binds and the new row's id are arguments; the branch for an `insert` that returns
-- no row is left out, since the row is there.
use scraplify.Base.{
  ℕ, Bool, false, not, ◌&&◌, ◌||◌, Option, none, some, List, [], ◌∷◌, ◌++◌, ltb, ◌==◌, nat_eq,
  list_eq, option_eq, if◌then◌else◌, length, filter, has, unique, is_none, Text, trim,
}
use scraplify.Outreach.Model.{
  CandidateProfileClaim, Membership, ListingPointer, ListingRevision, DraftKind, email,
  cover_letter, OutreachDraft, draft_generated, Store, BoundContent, bound_content,
  recipient_from_application_method,
}
use scraplify.Outreach.Transactions.{
  profile_not_current, opportunity_not_current, listing_not_in_opportunity, listing_not_current,
  unknown_claim, empty_body, draft_too_long, Transaction, failed, done, find, max_draft_body_chars,
  max_draft_subject_chars, audit, is_profile_current, is_opportunity_current, find_profile,
  find_opportunity, find_listing, subject_for,
}

pub record CreateDraftInput : Type 0 where
  pub profile_id : Text
  pub profile_version : ℕ
  pub opportunity_id : Text
  pub opportunity_revision_id : Text
  pub source_listing_id : Text
  pub source_listing_revision_id : Text
  pub subject : Option Text
  pub body : Text
  pub language : Text
  pub generator : Text
  pub claim_ids : List Text
  pub now : ℕ

abbrev pub is_blank : Text → Bool
is_blank s = trim s == []

abbrev pub is_subject_too_long : Option Text → Bool
is_subject_too_long none = false
is_subject_too_long (some subject) = ltb max_draft_subject_chars (length subject)

abbrev pub find_membership : CreateDraftInput → Store → Option Membership
find_membership i s =
    find
      (λ (m : Membership).
        m.opportunity_id == i.opportunity_id
        && m.source_listing_id == i.source_listing_id
        && is_none m.superseded_at)
      s.memberships

-- The current revision of a listing, by the join.
abbrev pub find_current_revision : Option ListingPointer → Store → Option ListingRevision
find_current_revision none s = none
find_current_revision (some l) s =
    find (λ (r : ListingRevision). l.current_revision_id == some r.id) s.revisions

abbrev pub owned_claims : CreateDraftInput → List Text → Store → List CandidateProfileClaim
owned_claims i unique_claim_ids s =
    filter
      (λ (claim : CandidateProfileClaim).
        has claim.id unique_claim_ids
        && claim.profile_id == i.profile_id
        && claim.profile_version == i.profile_version)
      s.claims

abbrev pub kind_for : Option Text → DraftKind
kind_for none = cover_letter
kind_for (some recipient) = email

abbrev pub new_draft : Text → CreateDraftInput → Option Text → OutreachDraft
new_draft new_id i recipient = record {
  id = new_id;
  profile_id = i.profile_id;
  profile_version = i.profile_version;
  opportunity_id = i.opportunity_id;
  opportunity_revision_id = i.opportunity_revision_id;
  source_listing_id = i.source_listing_id;
  source_listing_revision_id = i.source_listing_revision_id;
  kind = kind_for recipient;
  recipient = recipient;
  subject = subject_for (kind_for recipient) i.subject;
  body = i.body;
  language = i.language;
  generator = i.generator;
  claim_ids = unique i.claim_ids;
  created_at = i.now;
  updated_at = i.now;
  deleted_at = none;
}

module _ (content_hash : BoundContent → Text) where
  abbrev pub insert_draft : OutreachDraft → Store → Transaction OutreachDraft
  insert_draft draft s = done draft (
      audit draft.id
        (draft_generated (content_hash (bound_content draft)) draft.generator draft.kind
          (length draft.claim_ids))
        draft.created_at (record s { drafts = s.drafts ++ draft ∷ [] }))

  -- From the check of the listing on, with the revision that the join found.
  unfoldable pub create_for_listing :
      Text → CreateDraftInput → Option ListingRevision → Store → Transaction OutreachDraft
  create_for_listing new_id i none s = failed listing_not_current
  create_for_listing new_id i (some revision) s =
      if not (revision.id == i.source_listing_revision_id)
      then failed listing_not_current
      else if not (length (owned_claims i (unique i.claim_ids) s) == length (unique i.claim_ids))
      then failed unknown_claim
      else insert_draft
          (new_draft new_id i (recipient_from_application_method revision.application_method)) s

  unfoldable pub create_draft : Text → CreateDraftInput → Store → Transaction OutreachDraft
  create_draft new_id i s =
      if is_blank i.body
      then failed empty_body
      else if ltb max_draft_body_chars (length i.body) || is_subject_too_long i.subject
      then failed draft_too_long
      else if not (is_profile_current i.profile_id i.profile_version (find_profile i.profile_id s))
      then failed profile_not_current
      else if not
          (is_opportunity_current i.opportunity_revision_id (find_opportunity i.opportunity_id s))
      then failed opportunity_not_current
      else if is_none (find_membership i s)
      then failed listing_not_in_opportunity
      else create_for_listing new_id i
          (find_current_revision (find_listing i.source_listing_id s) s) s
