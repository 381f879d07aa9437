-- ===== src/Outreach/Drafts/Conflicts.antt =====
-- Two people with one draft open (src/outreach/draft-store.ts): what the check of the content's hash
-- refuses after a save.
use scraplify.Base.{
  ◌≡◌, ◌≢◌, refl, sym, ap, ◌∙◌, subst, true, false, not, ◌||◌, none, some, ◌⊎◌, inl, inr, ◌==◌,
  nat_eq, list_eq, option_eq, filter, is_none, Text, eq_of_beq, beq_refl, Bool-cases, arith,
}
use scraplify.Outreach.Model.{OutreachDraft, edited, Store, BoundContent, bound_content}
use scraplify.Outreach.Transactions.{
  content_changed, unsaved_edits, failed, done, find, Locked, locked, lock_draft, is_live_of,
  unless_deleted, find_draft, update_draft,
}
use scraplify.Outreach.Creation.{is_blank}
use scraplify.Outreach.Drafts.{
  EditDraftInput, ApproveDraftInput, no_approval, edit_draft, edit_locked, approve_draft,
  approve_locked, find_live, with_text, approval_state,
}
use scraplify.Outreach.Drafts.Rows.{
  lock_draft-found, find-draft_id, find-set_draft, find-filter_nil, invalidate-not_live,
}
use scraplify.Outreach.Drafts.Outcomes.{edit_draft-locked, locked-of_edited, changed_store}
use scraplify.Outreach.Drafts.Approvals.{invalidate_live_approval-rows}

beq-of_ne : (x y : Text) → x ≢ y → (x == y) ≡ false
beq-of_ne x y h = elim (Bool-cases (x == y)) [ inl e ↦ absurd (h (eq_of_beq x y e)) | inr e ↦ e ]

module _ (content_hash : BoundContent → Text) where
  -- What a save that changed the content left: the draft with the new text, not deleted.
  changed_store-found :
      (i : EditDraftInput) (s : Store) (draft : OutreachDraft)
      → find_draft draft.id s ≡ some draft
      → find_draft draft.id (changed_store content_hash i s draft)
        ≡ some (with_text content_hash i draft)
  changed_store-found i s draft found =
      let (drafts, approvals) =
        invalidate_live_approval-rows content_hash draft.id edited i.now
          (update_draft draft.id (with_text content_hash i) s) in
      ap (find (λ (d : OutreachDraft). d.id == draft.id)) drafts
      ∙ find-set_draft draft.id (with_text content_hash i) (λ d. refl) draft.id s.drafts draft found
      ∙ rw (beq_refl draft.id) refl

  edit_locked-refuses :
      (i : EditDraftInput) (s : Store) (draft : OutreachDraft)
      → (content_hash (bound_content draft) == i.expected_content_hash) ≡ false
      → edit_locked content_hash i s (locked draft) ≡ failed content_changed
  unfolding edit_locked
  edit_locked-refuses i s draft e = rw e refl

  edit_draft-refuses :
      (i : EditDraftInput) (s : Store) (draft : OutreachDraft)
      → lock_draft i.draft_id s ≡ locked draft
      → (content_hash (bound_content draft) == i.expected_content_hash) ≡ false
      → is_blank i.body ≡ false
      → edit_draft content_hash i s ≡ failed content_changed
  unfolding edit_draft
  edit_draft-refuses i s draft k e text =
      rw text (ap (edit_locked content_hash i s) k ∙ edit_locked-refuses i s draft e)

  edit_locked-result :
      (i : EditDraftInput) (s t : Store) (draft after : OutreachDraft)
      → edit_locked content_hash i s (locked draft) ≡ done after t
      → (content_hash (bound_content draft) ≡ i.expected_content_hash)
        × ((after ≡ draft) × (t ≡ s)
            ⊎ (with_text content_hash i draft ≡ after) × (changed_store content_hash i s draft ≡ t))
  unfolding edit_locked
  edit_locked-result i s t draft after e =
      let expected : (content_hash (bound_content draft) == i.expected_content_hash) ≡ true =
        ground arith in
      (eq_of_beq _ _ expected, ground arith)

  approve_locked-refuses :
      (new_id : Text) (i : ApproveDraftInput) (s : Store) (draft : OutreachDraft)
      → (content_hash (bound_content draft) == i.expected_content_hash) ≡ false
      → (approve_locked content_hash new_id i s (locked draft) ≡ failed unsaved_edits)
        ⊎ (approve_locked content_hash new_id i s (locked draft) ≡ failed content_changed)
  unfolding approve_locked
  approve_locked-refuses new_id i s draft e =
      elim (Bool-cases
        (not (draft.subject == i.visible_subject) || not (draft.body == i.visible_body))) [
          | inl unsaved ↦ inl (rw unsaved refl)
          | inr saved ↦ inr (rw (saved, e) refl)
        ]

  approve_draft-refuses :
      (new_id : Text) (i : ApproveDraftInput) (s : Store) (draft : OutreachDraft)
      → lock_draft i.draft_id s ≡ locked draft
      → (content_hash (bound_content draft) == i.expected_content_hash) ≡ false
      → (approve_draft content_hash new_id i s ≡ failed unsaved_edits)
        ⊎ (approve_draft content_hash new_id i s ≡ failed content_changed)
  unfolding approve_draft
  approve_draft-refuses new_id i s draft k e =
      subst
        (λ (l : Locked).
          (approve_locked content_hash new_id i s l ≡ failed unsaved_edits)
          ⊎ (approve_locked content_hash new_id i s l ≡ failed content_changed))
        (sym k) (approve_locked-refuses new_id i s draft e)

  unapproved :
      (i : EditDraftInput) (s : Store) (draft : OutreachDraft)
      → approval_state content_hash
          (with_text content_hash i draft)
          (changed_store content_hash i s draft)
        ≡ no_approval
  unfolding approval_state
  unapproved i s draft =
      let none_live : find_live content_hash draft.id (changed_store content_hash i s draft)
          ≡ none =
        let (drafts, approvals) =
          invalidate_live_approval-rows content_hash draft.id edited i.now
            (update_draft draft.id (with_text content_hash i) s) in
        find-filter_nil (is_live_of draft.id) _ (
          ap (filter (is_live_of draft.id)) approvals
          ∙ invalidate-not_live draft.id edited i.now s.approvals) in
      elim (Bool-cases (is_none draft.deleted_at)) [
        | inl e ↦ rw (e, none_live) refl
        | inr e ↦ rw e refl
      ]

  unapproved_after :
      (i : EditDraftInput) (s t : Store) (draft after : OutreachDraft)
      → with_text content_hash i draft ≡ after
      → changed_store content_hash i s draft ≡ t
      → approval_state content_hash after t ≡ no_approval
  unapproved_after i s t draft after made left =
      subst (λ (d : OutreachDraft). approval_state content_hash d t ≡ no_approval) made
        (subst
          (λ (u : Store).
            approval_state content_hash (with_text content_hash i draft) u ≡ no_approval)
          left (unapproved i s draft))

  locked-with_text :
      (i : EditDraftInput) (s t : Store) (draft after : OutreachDraft)
      → find_draft i.draft_id s ≡ some draft
      → draft.deleted_at ≡ none
      → with_text content_hash i draft ≡ after
      → changed_store content_hash i s draft ≡ t
      → lock_draft draft.id t ≡ locked after
  unfolding lock_draft
  locked-with_text i s t draft after found kept made left =
      let id : draft.id ≡ i.draft_id = find-draft_id i.draft_id s.drafts draft found in
      let own : find_draft draft.id s ≡ some draft =
        subst (λ (x : Text). find_draft x s ≡ some draft) (sym id) found in
      let found_after : find_draft draft.id t ≡ some after =
        subst (λ (u : Store). find_draft draft.id u ≡ some after) left
          (changed_store-found i s draft own ∙ ap some made) in
      let here : is_none after.deleted_at ≡ true =
        subst (λ (d : OutreachDraft). is_none d.deleted_at ≡ true) made (ap is_none kept) in
      ap unless_deleted found_after ∙ rw here refl

  -- After a save that changed the content, the draft has no approval, and a form that was loaded
  -- before it is refused: another save with text, and an approval by whatever text it shows.
  pub edit_draft-conflict :
      (i j : EditDraftInput) (k : ApproveDraftInput) (new_id : Text) (s t : Store)
      (after : OutreachDraft)
      → edit_draft content_hash i s ≡ done after t
      → content_hash (bound_content after) ≢ i.expected_content_hash
      → j.draft_id ≡ i.draft_id
      → j.expected_content_hash ≡ i.expected_content_hash
      → is_blank j.body ≡ false
      → k.draft_id ≡ i.draft_id
      → k.expected_content_hash ≡ i.expected_content_hash
      → (approval_state content_hash after t ≡ no_approval)
        × (edit_draft content_hash j t ≡ failed content_changed)
        × ((approve_draft content_hash new_id k t ≡ failed unsaved_edits)
            ⊎ (approve_draft content_hash new_id k t ≡ failed content_changed))
  edit_draft-conflict i j k new_id s t after e differs j_id j_hash text k_id k_hash =
      let e_locked = edit_draft-locked content_hash i s t after e in
      let (draft, l) = locked-of_edited content_hash i s t _ after e_locked in
      let (found, kept, id) = lock_draft-found i.draft_id s draft l in
      let (expected, result) = edit_locked-result i s t draft after (rw l at e_locked) in
      elim result [
        | inl (same, _) ↦
            absurd
              (differs (ap (λ (d : OutreachDraft). content_hash (bound_content d)) same ∙ expected))
        | inr (made, left) ↦
            let l_after : lock_draft i.draft_id t ≡ locked after =
              subst (λ (id : Text). lock_draft id t ≡ locked after) id
                (locked-with_text i s t draft after found kept made left) in
            let stale : (content_hash (bound_content after) == i.expected_content_hash) ≡ false =
              beq-of_ne _ _ differs in
            (
              unapproved_after i s t draft after made left,
              edit_draft-refuses j t after
                  (subst (λ id. lock_draft id t ≡ locked after) (sym j_id) l_after)
                  (subst (λ h. (content_hash (bound_content after) == h) ≡ false) (sym j_hash)
                    stale)
                  text,
              approve_draft-refuses new_id k t after
                  (subst (λ id. lock_draft id t ≡ locked after) (sym k_id) l_after)
                  (subst (λ h. (content_hash (bound_content after) == h) ≡ false) (sym k_hash)
                    stale),
            )
      ]
