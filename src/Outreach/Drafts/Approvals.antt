-- ===== src/Outreach/Drafts/Approvals.antt =====
-- What an approval counts for (src/outreach/draft-store.ts): the invariant of the tables.
use scraplify.Base.{
  ℕ, ◌≤◌, ◌≡◌, sym, ap, ◌∙◌, subst, false, none, some, List, [], ◌∷◌, ◌++◌, inl, inr, ◌==◌, nat_eq,
  list_eq, option_eq, length, length-append, filter, map, All, Text, eq_of_beq, Bool-cases,
  and_left, arith,
}
use scraplify.Outreach.Model.{
  OutreachDraft, Reason, OutreachApproval, Store, BoundContent, bound_content,
}
use scraplify.Outreach.Transactions.{
  find, is_live_of, invalidate, invalidate_live_approval, update_draft,
}
use scraplify.Outreach.Drafts.Rows.{
  find-append, filter-append, All-map, All-append, audit_invalidated-keeps,
  length-filter-invalidate, All-mono, set_draft, set_draft-other, find-set_draft, find-draft_id,
  not_live-other,
}

-- A live approval is of a draft that is there, and of its content.
abbrev pub BoundTo : (BoundContent → Text) → List OutreachDraft → OutreachApproval → Type 0
BoundTo content_hash drafts a =
    a.invalidated_at ≡ none
    → (d : OutreachDraft) × (find (λ (r : OutreachDraft). r.id == a.draft_id) drafts ≡ some d)
      × (d.deleted_at ≡ none)
      × (a.content_hash ≡ content_hash (bound_content d))

-- No draft has two live approvals, and each is of the content that the draft has now.
abbrev pub IsSound : (BoundContent → Text) → Store → Type 0
IsSound content_hash s =
    ((id : Text) → length (filter (is_live_of id) s.approvals) ≤ 1)
    × All (BoundTo content_hash s.drafts) s.approvals

module _ (content_hash : BoundContent → Text) where
  -- A draft that is not the approval's own may change, if the approval's own stays.
  BoundTo-set_draft :
      (id : Text) (set : OutreachDraft → OutreachDraft)
      (keeps_id : (d : OutreachDraft) → (set d).id ≡ d.id) (reason : Reason) (at : ℕ)
      (drafts : List OutreachDraft) (a : OutreachApproval)
      → BoundTo content_hash drafts a
      → BoundTo content_hash (map (set_draft id set keeps_id) drafts) (invalidate id reason at a)
  BoundTo-set_draft id set keeps_id reason at drafts a h = elim (Bool-cases (is_live_of id a)) [
    | inl e ↦ rw e (λ live. absurd (cc live))
    | inr e ↦ rw e (λ live.
        let (d, found, kept, hash) = h live in
        let other : (d.id == id) ≡ false =
          subst (λ other. (other == id) ≡ false) (sym (find-draft_id a.draft_id drafts d found))
            (not_live-other id a e live) in
        let stays = set_draft-other id set keeps_id d other in
        (d, find-set_draft id set keeps_id a.draft_id drafts d found ∙ ap some stays, kept, hash))
  ]

  BoundTo-insert :
      (drafts : List OutreachDraft) (d : OutreachDraft) (a : OutreachApproval)
      → BoundTo content_hash drafts a
      → BoundTo content_hash (drafts ++ d ∷ []) a
  BoundTo-insert drafts d a h live =
      let (r, found, kept, hash) = h live in
      (
        r,
        find-append (λ (r : OutreachDraft). r.id == a.draft_id) drafts (d ∷ []) r found,
        kept,
        hash,
      )

  BoundTo-invalidate :
      (id : Text) (reason : Reason) (at : ℕ) (drafts : List OutreachDraft) (a : OutreachApproval)
      → BoundTo content_hash drafts a
      → BoundTo content_hash drafts (invalidate id reason at a)
  BoundTo-invalidate id reason at drafts a h = elim (Bool-cases (is_live_of id a)) [
    | inl e ↦ rw e (λ live. absurd (cc live))
    | inr e ↦ rw e h
  ]

  -- The tables after `invalidateLiveApproval`.
  pub invalidate_live_approval-rows :
      (id : Text) (reason : Reason) (at : ℕ) (s : Store)
      → ((invalidate_live_approval id reason at s).drafts ≡ s.drafts)
        × ((invalidate_live_approval id reason at s).approvals
            ≡ map (invalidate id reason at) s.approvals)
  unfolding invalidate_live_approval
  invalidate_live_approval-rows id reason at s =
      audit_invalidated-keeps id reason at (filter (is_live_of id) s.approvals) _

  pub IsSound-invalidate :
      (id : Text) (reason : Reason) (at : ℕ) (s : Store)
      → IsSound content_hash s
      → IsSound content_hash (invalidate_live_approval id reason at s)
  IsSound-invalidate id reason at s (one, bound) =
      let (drafts, approvals) = invalidate_live_approval-rows id reason at s in
      rw (drafts, approvals)
        (
          (λ other.
              let le = length-filter-invalidate id other reason at s.approvals in
              let le_one = one other in omega arith),
          All-map _ _ (invalidate id reason at) s.approvals
              (BoundTo-invalidate id reason at s.drafts) bound,
        )

  -- A draft changes or is deleted, and its approval is invalidated with it.
  pub IsSound-change :
      (id : Text) (set : OutreachDraft → OutreachDraft)
      (keeps_id : (d : OutreachDraft) → (set d).id ≡ d.id) (reason : Reason) (at : ℕ) (s : Store)
      → IsSound content_hash s
      → IsSound content_hash (invalidate_live_approval id reason at (update_draft id set s))
  IsSound-change id set keeps_id reason at s (one, bound) =
      let (drafts, approvals) =
        invalidate_live_approval-rows id reason at (update_draft id set s) in
      rw (drafts, approvals)
        (
          (λ other.
              let le = length-filter-invalidate id other reason at s.approvals in
              let le_one = one other in omega arith),
          All-map _ _ (invalidate id reason at) s.approvals
              (BoundTo-set_draft id set keeps_id reason at s.drafts) bound,
        )

  pub IsSound-insert_draft :
      (d : OutreachDraft) (s : Store)
      → IsSound content_hash s
      → IsSound content_hash (record s { drafts = s.drafts ++ d ∷ [] })
  IsSound-insert_draft d s (one, bound) =
      (one, All-mono _ _ s.approvals (BoundTo-insert s.drafts d) bound)

  at_most_one-insert :
      (a : OutreachApproval) (rows : List OutreachApproval) (id : Text)
      → filter (is_live_of a.draft_id) rows ≡ []
      → length (filter (is_live_of id) rows) ≤ 1
      → length (filter (is_live_of id) (rows ++ a ∷ [])) ≤ 1
  at_most_one-insert a rows id alone le = elim (Bool-cases (is_live_of id a)) [
    | inl e ↦
        let same : a.draft_id ≡ id = eq_of_beq a.draft_id id (and_left _ _ e) in
        let none_left : filter (is_live_of id) rows ≡ [] =
          subst (λ (other : Text). filter (is_live_of other) rows ≡ []) same alone in
        rw (filter-append (is_live_of id) rows (a ∷ []), none_left, e) (omega arith)
    | inr e ↦
        rw
          (
            filter-append (is_live_of id) rows (a ∷ []),
            e,
            length-append (filter (is_live_of id) rows) [],
          )
          (omega arith)
  ]

  -- An approval of the present content of a draft that has no live one.
  pub IsSound-insert_approval :
      (a : OutreachApproval) (s : Store)
      → filter (is_live_of a.draft_id) s.approvals ≡ []
      → BoundTo content_hash s.drafts a
      → IsSound content_hash s
      → IsSound content_hash (record s { approvals = s.approvals ++ a ∷ [] })
  IsSound-insert_approval a s alone h (one, bound) = (
    (λ id. at_most_one-insert a s.approvals id alone (one id)),
    All-append _ s.approvals a bound h,
  )
