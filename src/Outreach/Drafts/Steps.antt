-- ===== src/Outreach/Drafts/Steps.antt =====
-- The life of the tables of outreach (src/outreach/draft-store.ts): the operations as a step
-- relation, in any order and with the other tables changing in between, and what every reachable
-- state satisfies.
use scraplify.Base.{
  ℕ, ◌≡◌, refl, sym, ap, ◌∙◌, subst, Option, none, some, [], inl, inr, ◌==◌, nat_eq, list_eq,
  option_eq, filter, Text, Bool-cases,
}
use scraplify.Outreach.Model.{
  OutreachDraft, edited, deleted, OutreachApproval, Store, BoundContent, bound_content,
}
use scraplify.Outreach.Transactions.{
  done, find, Locked, refused, locked, is_live_of, invalidate_live_approval, find_draft,
}
use scraplify.Outreach.Creation.{CreateDraftInput, create_draft}
use scraplify.Outreach.Drafts.{
  EditDraftInput, ApproveDraftInput, edit_draft, approve_draft, approve_with, insert_approval,
  delete_draft, delete_locked, find_live, with_text,
}
use scraplify.Outreach.Drafts.Rows.{lock_draft-found, filter-find-none, invalidate-not_live}
use scraplify.Outreach.Drafts.Outcomes.{
  create_draft-inserted, edit_draft-locked, edit_locked-changed, locked-of_edited,
  locked-of_approved, approve_locked-checked,
}
use scraplify.Outreach.Drafts.Approvals.{
  IsSound, IsSound-invalidate, IsSound-change, IsSound-insert_draft, IsSound-insert_approval,
  invalidate_live_approval-rows,
}

module _ (content_hash : BoundContent → Text) where
  -- One transaction that succeeded, or a change of the other tables.
  pub data Step : Store → Store → Type 0 where
    created :
        {s t : Store} {draft : OutreachDraft} (new_id : Text) (i : CreateDraftInput)
        → create_draft content_hash new_id i s ≡ done draft t
        → Step s t
    saved :
        {s t : Store} {draft : OutreachDraft} (i : EditDraftInput)
        → edit_draft content_hash i s ≡ done draft t
        → Step s t
    approved :
        {s t : Store} {approval : OutreachApproval} (new_id : Text) (i : ApproveDraftInput)
        → approve_draft content_hash new_id i s ≡ done approval t
        → Step s t
    removed :
        {s t : Store} (draft_id : Text) (now : ℕ)
        → delete_draft content_hash draft_id now s ≡ done tt t
        → Step s t
    elsewhere : {s t : Store} → s.drafts ≡ t.drafts → s.approvals ≡ t.approvals → Step s t

  pub data Steps : Store → Store → Type 0 where
    no_step : {s : Store} → Steps s s
    and_then : {s t u : Store} → Steps s t → Step t u → Steps s u

  pub done-store : {A : Type 0} (x y : A) (s t : Store) → done x s ≡ done y t → s ≡ t
  done-store x y s t e = cc

  IsSound-of_done :
      {A : Type 0} (x y : A) (s t : Store)
      → done x s ≡ done y t
      → IsSound content_hash s
      → IsSound content_hash t
  IsSound-of_done x y s t e h = subst (IsSound content_hash) (done-store x y s t e) h

  create_draft-IsSound :
      (new_id : Text) (i : CreateDraftInput) (s t : Store) (draft : OutreachDraft)
      → create_draft content_hash new_id i s ≡ done draft t
      → IsSound content_hash s
      → IsSound content_hash t
  create_draft-IsSound new_id i s t draft e h =
      IsSound-of_done _ _ _ t (create_draft-inserted content_hash new_id i s t draft e)
        (IsSound-insert_draft content_hash draft s h)

  edit_draft-IsSound :
      (i : EditDraftInput) (s t : Store) (after : OutreachDraft)
      → edit_draft content_hash i s ≡ done after t
      → IsSound content_hash s
      → IsSound content_hash t
  edit_draft-IsSound i s t after e h =
      let e_locked = edit_draft-locked content_hash i s t after e in
      let (draft, found) = locked-of_edited content_hash i s t _ after e_locked in
      elim (edit_locked-changed content_hash i s t draft after (rw found at e_locked)) [
        | inl same ↦ subst (IsSound content_hash) same h
        | inr changed ↦ subst (IsSound content_hash) changed (
            IsSound-change content_hash draft.id (with_text content_hash i) (λ d. refl) edited i.now
              s h)
      ]

  delete_locked-IsSound :
      (now : ℕ) (s t : Store) (l : Locked)
      → delete_locked content_hash now s l ≡ done tt t
      → IsSound content_hash s
      → IsSound content_hash t
  unfolding delete_locked
  delete_locked-IsSound now s t (refused e) k h = cc
  delete_locked-IsSound now s t (locked draft) k h =
      IsSound-of_done _ _ _ t k (IsSound-change content_hash draft.id _ (λ d. refl) deleted now s h)

  insert_approval-IsSound :
      (new_id : Text) (draft : OutreachDraft) (now : ℕ) (s t : Store) (a : OutreachApproval)
      → filter (is_live_of draft.id) s.approvals ≡ []
      → find_draft draft.id s ≡ some draft
      → draft.deleted_at ≡ none
      → insert_approval content_hash new_id draft now s ≡ done a t
      → IsSound content_hash s
      → IsSound content_hash t
  insert_approval-IsSound new_id draft now s t a alone found kept e h =
      IsSound-of_done _ _ _ t e
        (IsSound-insert_approval content_hash _ s alone (λ live. (draft, found, kept, refl)) h)

  approve_with-IsSound :
      (new_id : Text) (draft : OutreachDraft) (now : ℕ) (s t : Store) (a : OutreachApproval)
      (live : Option OutreachApproval)
      → find_live content_hash draft.id s ≡ live
      → find_draft draft.id s ≡ some draft
      → draft.deleted_at ≡ none
      → approve_with content_hash new_id draft now s live ≡ done a t
      → IsSound content_hash s
      → IsSound content_hash t
  approve_with-IsSound new_id draft now s t a none e found kept k h =
      insert_approval-IsSound new_id draft now s t a
        (filter-find-none (is_live_of draft.id) s.approvals e) found kept k h
  approve_with-IsSound new_id draft now s t a (some live) e found kept k h =
      elim (Bool-cases (live.content_hash == content_hash (bound_content draft))) [
        | inl same ↦ IsSound-of_done live a s t (rw same at k) h
        | inr other ↦
            let (drafts, approvals) =
              invalidate_live_approval-rows content_hash draft.id edited now s in
            insert_approval-IsSound new_id draft now
              (invalidate_live_approval draft.id edited now s) t a
              (ap (filter (is_live_of draft.id)) approvals
                ∙ invalidate-not_live draft.id edited now s.approvals)
              (ap (find (λ (d : OutreachDraft). d.id == draft.id)) drafts ∙ found) kept
              (rw other at k) (IsSound-invalidate content_hash draft.id edited now s h)
      ]

  approve_draft-IsSound :
      (new_id : Text) (i : ApproveDraftInput) (s t : Store) (a : OutreachApproval)
      → approve_draft content_hash new_id i s ≡ done a t
      → IsSound content_hash s
      → IsSound content_hash t
  unfolding approve_draft
  approve_draft-IsSound new_id i s t a e h =
      let (draft, k) = locked-of_approved content_hash new_id i s t _ a e in
      let (found, kept, same) = lock_draft-found i.draft_id s draft k in
      let (subject, body, fresh, given) =
        approve_locked-checked content_hash new_id i s t draft a (rw k at e) in
      approve_with-IsSound new_id draft i.now s t a _ refl
        (subst (λ (id : Text). find_draft id s ≡ some draft) (sym same) found) kept given h

  pub Step-IsSound : (s t : Store) → Step s t → IsSound content_hash s → IsSound content_hash t
  unfolding delete_draft
  Step-IsSound s t (created {draft = draft} new_id i e) h =
      create_draft-IsSound new_id i s t draft e h
  Step-IsSound s t (saved {draft = draft} i e) h = edit_draft-IsSound i s t draft e h
  Step-IsSound s t (approved {approval = a} new_id i e) h = approve_draft-IsSound new_id i s t a e h
  Step-IsSound s t (removed draft_id now e) h = delete_locked-IsSound now s t _ e h
  Step-IsSound s t (elsewhere drafts approvals) h = rw (sym drafts, sym approvals) h

  -- Whatever is created, saved, approved and deleted, in any order and with any change of the
  -- profiles, opportunities and listings in between: from tables where this holds, no draft comes to
  -- have two live approvals, and each live approval is of a draft that is there, is not deleted and
  -- still has the content that was approved, by its hash.
  pub Steps-IsSound : (s t : Store) → Steps s t → IsSound content_hash s → IsSound content_hash t
  Steps-IsSound s t no_step h = h
  Steps-IsSound s t (and_then {t = r} steps step) h =
      Step-IsSound r t step (Steps-IsSound s r steps h)
