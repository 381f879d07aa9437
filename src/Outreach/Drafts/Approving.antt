-- ===== src/Outreach/Drafts/Approving.antt =====
-- A draft that was just written can be approved as it is (src/outreach/draft-store.ts).
use scraplify.Base.{
  ℕ, ◌≡◌, refl, sym, ap, ◌∙◌, subst, true, Option, none, some, ◌==◌, nat_eq, list_eq, option_eq,
  is_none, Text, beq_refl,
}
use scraplify.Outreach.Model.{OutreachDraft, OutreachApproval, Store, BoundContent, bound_content}
use scraplify.Outreach.Transactions.{
  done, locked, lock_draft, is_live_of, unless_deleted, find_draft, bound_inputs_staleness,
}
use scraplify.Outreach.Creation.{CreateDraftInput, create_draft, insert_draft}
use scraplify.Outreach.Drafts.{
  ApproveDraftInput, current, approve_draft, approve_locked, approve_with, find_live,
  approval_state,
}
use scraplify.Outreach.Drafts.Rows.{find-append_none}
use scraplify.Outreach.Drafts.Outcomes.{create_draft-inserted}
use scraplify.Outreach.Drafts.Approvals.{IsSound}
use scraplify.Outreach.Drafts.Inputs.{
  create_for_listing-checked, create_draft-checked, create_draft-fresh,
}
use scraplify.Outreach.Drafts.Steps.{Step-IsSound, created, done-store}
use scraplify.Outreach.Drafts.Binding.{live-hash}

module _ (content_hash : BoundContent → Text) where
  -- The approve form of a draft as it is shown.
  abbrev pub shown : OutreachDraft → ℕ → ApproveDraftInput
  shown draft now = record {
    draft_id = draft.id;
    expected_content_hash = content_hash (bound_content draft);
    visible_subject = draft.subject;
    visible_body = draft.body;
    now = now;
  }

  lock_draft-of_found :
      (s : Store) (draft : OutreachDraft)
      → find_draft draft.id s ≡ some draft
      → draft.deleted_at ≡ none
      → lock_draft draft.id s ≡ locked draft
  unfolding lock_draft
  lock_draft-of_found s draft found kept =
      ap unless_deleted found
      ∙ (let here : is_none draft.deleted_at ≡ true = ap is_none kept in rw here refl)

  approve_draft-shown :
      (new_id : Text) (draft : OutreachDraft) (now : ℕ) (s : Store)
      → find_draft draft.id s ≡ some draft
      → draft.deleted_at ≡ none
      → bound_inputs_staleness draft s ≡ none
      → approve_draft content_hash new_id (shown draft now) s
        ≡ approve_with content_hash new_id draft now s (find_live content_hash draft.id s)
  unfolding approve_draft approve_locked
  approve_draft-shown new_id draft now s found kept fresh =
      rw
        (
          lock_draft-of_found s draft found kept,
          beq_refl draft.subject,
          beq_refl draft.body,
          beq_refl (content_hash (bound_content draft)),
          fresh,
        )
        refl

  approval_state-of_live :
      (draft : OutreachDraft) (s : Store) (a : OutreachApproval)
      → draft.deleted_at ≡ none
      → find_live content_hash draft.id s ≡ some a
      → a.content_hash ≡ content_hash (bound_content draft)
      → bound_inputs_staleness draft s ≡ none
      → approval_state content_hash draft s ≡ current a.approved_at a.content_hash
  unfolding approval_state
  approval_state-of_live draft s a kept live hash fresh =
      let here : is_none draft.deleted_at ≡ true = ap is_none kept in
      let same : (a.content_hash == content_hash (bound_content draft)) ≡ true =
        subst (λ (h : Text). (a.content_hash == h) ≡ true) hash (beq_refl a.content_hash) in
      rw (here, live, same, fresh) refl

  -- The form of an approved draft returns the approval that it has.
  approve_draft-again :
      (other_id : Text) (draft : OutreachDraft) (now : ℕ) (s : Store) (a : OutreachApproval)
      → find_draft draft.id s ≡ some draft
      → draft.deleted_at ≡ none
      → bound_inputs_staleness draft s ≡ none
      → find_live content_hash draft.id s ≡ some a
      → a.content_hash ≡ content_hash (bound_content draft)
      → approve_draft content_hash other_id (shown draft now) s ≡ done a s
  approve_draft-again other_id draft now s a found kept fresh live hash =
      let same : (a.content_hash == content_hash (bound_content draft)) ≡ true =
        subst (λ (h : Text). (a.content_hash == h) ≡ true) hash (beq_refl a.content_hash) in
      approve_draft-shown other_id draft now s found kept fresh
      ∙ ap (approve_with content_hash other_id draft now s) live
      ∙ rw same refl

  -- The form was sent, the draft is approved, and sending it again changes nothing.
  abbrev pub IsApproved : Text → OutreachDraft → ℕ → ℕ → Store → Store → OutreachApproval → Type 0
  IsApproved other_id draft later now s u a =
      (approval_state content_hash draft u
        ≡ current a.approved_at (content_hash (bound_content draft)))
      × (approve_draft content_hash other_id (shown draft later) u ≡ done a u)

  IsApproved-of_live :
      (other_id : Text) (draft : OutreachDraft) (now later : ℕ) (s u : Store) (a : OutreachApproval)
      → find_draft draft.id u ≡ some draft
      → draft.deleted_at ≡ none
      → bound_inputs_staleness draft u ≡ none
      → find_live content_hash draft.id u ≡ some a
      → a.content_hash ≡ content_hash (bound_content draft)
      → IsApproved other_id draft later now s u a
  IsApproved-of_live other_id draft now later s u a found kept fresh live hash = (
    approval_state-of_live draft u a kept live hash fresh ∙ ap (current a.approved_at) hash,
    approve_draft-again other_id draft later u a found kept fresh live hash,
  )

  approve_draft-approves_live :
      (new_id other_id : Text) (draft : OutreachDraft) (now later : ℕ) (s : Store)
      (live : Option OutreachApproval)
      → find_live content_hash draft.id s ≡ live
      → IsSound content_hash s
      → find_draft draft.id s ≡ some draft
      → draft.deleted_at ≡ none
      → bound_inputs_staleness draft s ≡ none
      → (a : OutreachApproval) × (u : Store) × (approve_with content_hash new_id draft now s live
          ≡ done a u)
        × IsApproved other_id draft later now s u a
  unfolding bound_inputs_staleness
  approve_draft-approves_live new_id other_id draft now later s none e h found kept fresh = (
    _,
    _,
    refl,
    IsApproved-of_live other_id draft now later s _ _ found kept fresh
        (find-append_none (is_live_of draft.id) s.approvals _ e (rw (beq_refl draft.id) refl)) refl,
  )
  approve_draft-approves_live new_id other_id draft now later s (some a) e h found kept fresh =
      let hash = live-hash content_hash s draft.id a draft h e found in
      let same : (a.content_hash == content_hash (bound_content draft)) ≡ true =
        subst (λ (x : Text). (a.content_hash == x) ≡ true) hash (beq_refl a.content_hash) in
      (
        a,
        s,
        rw same refl,
        IsApproved-of_live other_id draft now later s s a found kept fresh e hash,
      )

  -- Where the invariant of the approvals holds, a draft that is there, is not deleted and whose
  -- inputs are current is approved by sending its approve form as it is shown: the call returns, the
  -- draft is then approved with its present content, and sending the form again, at any time and
  -- with any new id, returns the same approval and changes nothing.
  pub approve_draft-approves :
      (new_id other_id : Text) (draft : OutreachDraft) (now later : ℕ) (s : Store)
      → IsSound content_hash s
      → find_draft draft.id s ≡ some draft
      → draft.deleted_at ≡ none
      → bound_inputs_staleness draft s ≡ none
      → (a : OutreachApproval) × (u : Store) × (approve_draft content_hash new_id
            (shown draft now)
            s
          ≡ done a u)
        × (approval_state content_hash draft u
            ≡ current a.approved_at (content_hash (bound_content draft)))
        × (approve_draft content_hash other_id (shown draft later) u ≡ done a u)
  approve_draft-approves new_id other_id draft now later s h found kept fresh =
      let (a, u, e, (state, again)) =
        approve_draft-approves_live new_id other_id draft now later s _ refl h found kept fresh in
      (a, u, approve_draft-shown new_id draft now s found kept fresh ∙ e, state, again)

  insert_draft-found :
      (s t : Store) (draft : OutreachDraft)
      → find_draft draft.id s ≡ none
      → insert_draft content_hash draft s ≡ done draft t
      → (find_draft draft.id t ≡ some draft)
        × (bound_inputs_staleness draft t ≡ bound_inputs_staleness draft s)
  unfolding bound_inputs_staleness
  insert_draft-found s t draft unused e =
      subst
        (λ (x : Store).
          (find_draft draft.id x ≡ some draft)
          × (bound_inputs_staleness draft x ≡ bound_inputs_staleness draft s))
        (done-store content_hash draft draft _ t e)
        (
          find-append_none (λ (d : OutreachDraft). d.id == draft.id) s.drafts draft unused
              (beq_refl draft.id),
          refl,
        )

  -- A draft that `createDraft` returned under a new id is one that its approve form approves: its
  -- inputs are current, and in the tables after it the call returns with an approval of its present
  -- content, with which the draft is approved.
  pub create_draft-approvable :
      (new_id approval_id : Text) (i : CreateDraftInput) (now : ℕ) (s t : Store)
      (draft : OutreachDraft)
      → IsSound content_hash s
      → find_draft new_id s ≡ none
      → create_draft content_hash new_id i s ≡ done draft t
      → (a : OutreachApproval) × (u : Store) × (approve_draft content_hash approval_id
            (shown draft now)
            t
          ≡ done a u)
        × (approval_state content_hash draft u
            ≡ current a.approved_at (content_hash (bound_content draft)))
  create_draft-approvable new_id approval_id i now s t draft h unused e =
      let (profile, opportunity, rest) = create_draft-checked content_hash new_id i s t draft e in
      let (r, listing, same, made) =
        create_for_listing-checked content_hash new_id i _ s t draft rest in
      let id : draft.id ≡ new_id = sym (ap (λ (d : OutreachDraft). d.id) made) in
      let kept : draft.deleted_at ≡ none = sym (ap (λ (d : OutreachDraft). d.deleted_at) made) in
      let (found, staleness) =
        insert_draft-found s t draft (ap (λ (x : Text). find_draft x s) id ∙ unused)
          (create_draft-inserted content_hash new_id i s t draft e) in
      let (a, u, given, state, again) =
        approve_draft-approves approval_id approval_id draft now now t
          (Step-IsSound content_hash s t (created new_id i e) h) found kept
          (staleness ∙ create_draft-fresh content_hash new_id i s t draft e) in
      (a, u, given, state)
