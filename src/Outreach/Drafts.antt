-- ===== src/Outreach/Drafts.antt =====
-- Editing, approving and deleting a draft, and whether it is approved now (src/outreach/draft-store.ts), as transactions. The hash of what
-- an approval binds and the ids of new rows are arguments; the branches for an `insert` or `update`
-- that returns no row are left out, since the row is there.
pub mod Approvals
pub mod Inputs
pub mod Outcomes
pub mod Approving
pub mod Binding
pub mod Conflicts
pub mod Rows
pub mod Steps
mod Tests
use scraplify.Base.{
  ℕ, Bool, true, false, not, ◌&&◌, ◌||◌, Option, none, some, List, [], ◌∷◌, ◌++◌, ltb, leb, ◌==◌,
  nat_eq, list_eq, option_eq, if◌then◌else◌, length, filter, map, has, unique, is_none, Text, trim,
}
use scraplify.Outreach.Model.{
  CandidateProfileClaim, Membership, ListingPointer, ListingRevision, DraftKind, email,
  cover_letter, OutreachDraft, edited, deleted, OutreachApproval, draft_generated, draft_edited,
  draft_approved, draft_deleted, Store, BoundContent, bound_content,
  recipient_from_application_method,
}
use scraplify.Outreach.Creation.{is_blank}
use scraplify.Outreach.Transactions.{
  OutreachError, profile_not_current, opportunity_not_current, listing_not_in_opportunity,
  listing_not_current, unknown_claim, content_changed, empty_body, unsaved_edits, draft_too_long,
  Transaction, failed, done, find, max_draft_body_chars, max_draft_subject_chars, audit,
  is_profile_current, is_opportunity_current, find_profile, find_opportunity, find_listing,
  bound_inputs_staleness, Locked, refused, locked, lock_draft, is_live_of, invalidate_live_approval,
  update_draft, subject_for,
}

pub record EditDraftInput : Type 0 where
  pub draft_id : Text
  pub subject : Option Text
  pub body : Text
  pub expected_content_hash : Text
  pub now : ℕ

pub record ApproveDraftInput : Type 0 where
  pub draft_id : Text
  pub expected_content_hash : Text
  pub visible_subject : Option Text
  pub visible_body : Text
  pub now : ℕ

pub data ApprovalState : Type 0 where
  no_approval : ApprovalState
  current : (approved_at : ℕ) → (content_hash : Text) → ApprovalState
  content_stale : (approved_at : ℕ) → ApprovalState
  inputs_stale : (approved_at : ℕ) → OutreachError → ApprovalState

module _ (content_hash : BoundContent → Text) where
  abbrev pub with_text : EditDraftInput → OutreachDraft → OutreachDraft
  with_text i draft = record draft {
    subject = subject_for draft.kind i.subject;
    body = i.body;
    updated_at = i.now;
  }

  unfoldable pub edit_locked : EditDraftInput → Store → Locked → Transaction OutreachDraft
  edit_locked i s (refused e) = failed e
  edit_locked i s (locked draft) =
      let before : Text = content_hash (bound_content draft) in
      let after : Text = content_hash (bound_content (with_text i draft)) in
      if not (before == i.expected_content_hash)
      then failed content_changed
      else if before == after
      then done draft s
      else done (with_text i draft) (
          audit draft.id (draft_edited before after) i.now (
            invalidate_live_approval draft.id edited i.now (update_draft draft.id (with_text i) s)))

  unfoldable pub edit_draft : EditDraftInput → Store → Transaction OutreachDraft
  edit_draft i s =
      if is_blank i.body then failed empty_body else edit_locked i s (lock_draft i.draft_id s)

  abbrev pub find_live : Text → Store → Option OutreachApproval
  find_live draft_id s = find (is_live_of draft_id) s.approvals

  abbrev pub insert_approval : Text → OutreachDraft → ℕ → Store → Transaction OutreachApproval
  insert_approval new_id draft now s =
      let hash : Text = content_hash (bound_content draft) in
      let approval : OutreachApproval = record {
        id = new_id;
        draft_id = draft.id;
        content_hash = hash;
        approved_at = now;
        invalidated_at = none;
        invalidation_reason = none;
      } in
      done approval (
        audit draft.id (draft_approved new_id hash) now
          (record s { approvals = s.approvals ++ approval ∷ [] }))

  abbrev pub approve_with :
      Text → OutreachDraft → ℕ → Store → Option OutreachApproval → Transaction OutreachApproval
  approve_with new_id draft now s none = insert_approval new_id draft now s
  approve_with new_id draft now s (some live) =
      if live.content_hash == content_hash (bound_content draft)
      then done live s
      else insert_approval new_id draft now (invalidate_live_approval draft.id edited now s)

  abbrev pub unless_stale :
      Transaction OutreachApproval → Option OutreachError → Transaction OutreachApproval
  unless_stale t none = t
  unless_stale t (some e) = failed e

  unfoldable pub approve_locked :
      Text → ApproveDraftInput → Store → Locked → Transaction OutreachApproval
  approve_locked new_id i s (refused e) = failed e
  approve_locked new_id i s (locked draft) =
      if not (draft.subject == i.visible_subject) || not (draft.body == i.visible_body)
      then failed unsaved_edits
      else if not (content_hash (bound_content draft) == i.expected_content_hash)
      then failed content_changed
      else unless_stale (approve_with new_id draft i.now s (find_live draft.id s))
          (bound_inputs_staleness draft s)

  unfoldable pub approve_draft : Text → ApproveDraftInput → Store → Transaction OutreachApproval
  approve_draft new_id i s = approve_locked new_id i s (lock_draft i.draft_id s)

  unfoldable pub delete_locked : ℕ → Store → Locked → Transaction Unit
  delete_locked now s (refused e) = failed e
  delete_locked now s (locked draft) = done tt (
      audit draft.id (draft_deleted (content_hash (bound_content draft))) now (
        invalidate_live_approval draft.id deleted now (
          update_draft draft.id
            (λ (d : OutreachDraft). record d { deleted_at = some now; updated_at = now }) s)))

  unfoldable pub delete_draft : Text → ℕ → Store → Transaction Unit
  delete_draft draft_id now s = delete_locked now s (lock_draft draft_id s)

  abbrev pub current_unless : OutreachApproval → Option OutreachError → ApprovalState
  current_unless live none = current live.approved_at live.content_hash
  current_unless live (some e) = inputs_stale live.approved_at e

  abbrev pub state_of : OutreachDraft → Store → OutreachApproval → ApprovalState
  state_of draft s live =
      if not (live.content_hash == content_hash (bound_content draft))
      then content_stale live.approved_at
      else current_unless live (bound_inputs_staleness draft s)

  abbrev pub state_with : OutreachDraft → Store → Option OutreachApproval → ApprovalState
  state_with draft s none = no_approval
  state_with draft s (some live) = state_of draft s live

  unfoldable pub approval_state : OutreachDraft → Store → ApprovalState
  approval_state draft s =
      if is_none draft.deleted_at then state_with draft s (find_live draft.id s) else no_approval
