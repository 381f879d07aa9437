-- ===== src/Outreach/Transactions.antt =====
-- What the operations on outreach drafts share (src/outreach/draft-store.ts): their errors, the
-- lock on a draft, the checks that its inputs are current, the audit trail and the invalidation of
-- an approval. A transaction fails with an error and changes nothing, or it returns a value with
-- the tables after it.
use scraplify.Base.{
  ℕ, Bool, false, not, ◌&&◌, Option, none, some, List, [], ◌∷◌, ◌++◌, ◌==◌, nat_eq, list_eq,
  option_eq, if◌then◌else◌, filter, map, is_none, Text, trim,
}
use scraplify.Outreach.Model.{
  CandidateProfile, Opportunity, ListingPointer, DraftKind, email, cover_letter, OutreachDraft,
  Reason, OutreachApproval, AuditAction, approval_invalidated, Store,
}

pub data OutreachError : Type 0 where
  not_found deleted_draft profile_not_current opportunity_not_current : OutreachError
  listing_not_in_opportunity listing_not_current unknown_claim : OutreachError
  content_changed empty_body unsaved_edits draft_too_long : OutreachError

pub data Transaction (A : Type 0) : Type 0 where
  failed : OutreachError → Transaction A
  done : A → Store → Transaction A

-- The first row that a condition selects.
abbrev pub find {ℓ} : {A : Type ℓ} → (A → Bool) → List A → Option A
find p [] = none
find p (x ∷ xs) = if p x then some x else find p xs

abbrev pub max_draft_body_chars : ℕ
max_draft_body_chars = 20000

abbrev pub max_draft_subject_chars : ℕ
max_draft_subject_chars = 300

abbrev pub audit : Text → AuditAction → ℕ → Store → Store
audit entity_id action at s = record s {
  audit_events =
      s.audit_events ++ record { entity_id = entity_id; action = action; occurred_at = at } ∷ [];
}

abbrev pub is_profile_current : Text → ℕ → Option CandidateProfile → Bool
is_profile_current id version none = false
is_profile_current id version (some profile) =
    is_none profile.deleted_at && profile.version == version

abbrev pub is_opportunity_current : Text → Option Opportunity → Bool
is_opportunity_current revision_id none = false
is_opportunity_current revision_id (some o) = o.current_canonical_revision_id == some revision_id

abbrev pub is_listing_current : Text → Option ListingPointer → Bool
is_listing_current revision_id none = false
is_listing_current revision_id (some l) = l.current_revision_id == some revision_id

abbrev pub find_profile : Text → Store → Option CandidateProfile
find_profile id s = find (λ (profile : CandidateProfile). profile.id == id) s.profiles

abbrev pub find_opportunity : Text → Store → Option Opportunity
find_opportunity id s = find (λ (o : Opportunity). o.id == id) s.opportunities

abbrev pub find_listing : Text → Store → Option ListingPointer
find_listing id s = find (λ (l : ListingPointer). l.id == id) s.listings

-- Why an input that the draft was written from no longer holds.
unfoldable pub bound_inputs_staleness : OutreachDraft → Store → Option OutreachError
bound_inputs_staleness draft s =
    if not
      (is_profile_current draft.profile_id draft.profile_version (find_profile draft.profile_id s))
    then some profile_not_current
    else if not (
        is_opportunity_current draft.opportunity_revision_id
          (find_opportunity draft.opportunity_id s))
    then some opportunity_not_current
    else if not (
        is_listing_current draft.source_listing_revision_id
          (find_listing draft.source_listing_id s))
    then some listing_not_current
    else none

pub data Locked : Type 0 where
  refused : OutreachError → Locked
  locked : OutreachDraft → Locked

abbrev pub unless_deleted : Option OutreachDraft → Locked
unless_deleted none = refused not_found
unless_deleted (some draft) =
    if is_none draft.deleted_at then locked draft else refused deleted_draft

abbrev pub find_draft : Text → Store → Option OutreachDraft
find_draft id s = find (λ (draft : OutreachDraft). draft.id == id) s.drafts

unfoldable pub lock_draft : Text → Store → Locked
lock_draft draft_id s = unless_deleted (find_draft draft_id s)

abbrev pub is_live_of : Text → OutreachApproval → Bool
is_live_of draft_id approval = approval.draft_id == draft_id && is_none approval.invalidated_at

abbrev pub invalidate : Text → Reason → ℕ → OutreachApproval → OutreachApproval
invalidate draft_id reason at approval =
    if is_live_of draft_id approval
    then record approval { invalidated_at = some at; invalidation_reason = some reason }
    else approval

abbrev pub audit_invalidated : Text → Reason → ℕ → List OutreachApproval → Store → Store
audit_invalidated draft_id reason at [] s = s
audit_invalidated draft_id reason at (approval ∷ approvals) s =
    audit_invalidated draft_id reason at approvals
      (audit draft_id (approval_invalidated approval.id approval.content_hash reason) at s)

unfoldable pub invalidate_live_approval : Text → Reason → ℕ → Store → Store
invalidate_live_approval draft_id reason at s =
    audit_invalidated draft_id reason at (filter (is_live_of draft_id) s.approvals)
      (record s { approvals = map (invalidate draft_id reason at) s.approvals })

-- `.update(outreachDrafts).set(...).where(eq(outreachDrafts.id, id))`.
abbrev pub update_draft : Text → (OutreachDraft → OutreachDraft) → Store → Store
update_draft id set s = record s {
  drafts = map (λ (draft : OutreachDraft). if draft.id == id then set draft else draft) s.drafts;
}

abbrev pub trimmed : Option Text → Option Text
trimmed none = none
trimmed (some s) = some (trim s)

-- The subject that is kept: a cover letter has none.
abbrev pub subject_for : DraftKind → Option Text → Option Text
subject_for email subject = trimmed subject
subject_for cover_letter subject = none
