-- ===== src/Outreach/Drafts/Tests.antt =====
-- A draft to a stated address: written, approved, edited by two people, and deleted.
use scraplify.Base.{
  ◌≡◌, ◌≢◌, refl, ap, none, some, [], ◌∷◌, ◌++◌, ◌⊎◌, nat_eq, list_eq, length, Text, arith,
}
use scraplify.Net.IpPolicy.Text.{codes}
use scraplify.Outreach.Model.{
  stated, OutreachDraft, OutreachApproval, Store, BoundContent, bound_content,
  recipient_from_application_method,
}
use scraplify.Outreach.Content.{
  canonical, content_hash, escape, escape_unit, short_escape, hex4, decimal, decimal_from,
}
use scraplify.Outreach.Content.Canonical.{canonical-injective}
use scraplify.Outreach.Transactions.{
  unsaved_edits, content_changed, Transaction, failed, done, find_draft, lock_draft,
  bound_inputs_staleness, invalidate_live_approval,
}
use scraplify.Outreach.Creation.{CreateDraftInput, create_draft, create_for_listing, new_draft}
use scraplify.Outreach.Drafts.{
  EditDraftInput, no_approval, current, edit_draft, edit_locked, approve_draft, approve_locked,
  find_live, approval_state, with_text,
}
use scraplify.Outreach.Drafts.Approvals.{IsSound}
use scraplify.Outreach.Drafts.Steps.{no_step, and_then, created, approved, Steps-IsSound}
use scraplify.Outreach.Drafts.Binding.{IsCollision, approve_draft-binds}
use scraplify.Outreach.Drafts.Approving.{shown, approve_draft-approves}
use scraplify.Outreach.Drafts.Conflicts.{edit_draft-conflict}

-- A hash that keeps the whole text.
abbrev hash : BoundContent → Text
hash = content_hash (λ s. s)

abbrev store : Store
store = record {
  profiles = record { id = codes "p"; version = 2; deleted_at = none } ∷ [];
  claims = record { id = codes "c"; profile_id = codes "p"; profile_version = 2 } ∷ [];
  opportunities = record { id = codes "o"; current_canonical_revision_id = some (codes "or") } ∷ [];
  memberships =
      record { opportunity_id = codes "o"; source_listing_id = codes "l"; superseded_at = none }
      ∷ [];
  listings = record { id = codes "l"; current_revision_id = some (codes "lr") } ∷ [];
  revisions =
      record { id = codes "lr"; application_method = stated (codes "email") (codes " a@b.c ") }
      ∷ [];
  drafts = [];
  approvals = [];
  audit_events = [];
}

abbrev input : CreateDraftInput
input = record {
  profile_id = codes "p";
  profile_version = 2;
  opportunity_id = codes "o";
  opportunity_revision_id = codes "or";
  source_listing_id = codes "l";
  source_listing_revision_id = codes "lr";
  subject = some (codes " Hi ");
  body = codes "Dear";
  language = codes "en";
  generator = codes "g";
  claim_ids = codes "c" ∷ codes "c" ∷ [];
  now = 1;
}

abbrev draft : OutreachDraft
draft = new_draft (codes "d") input (some (codes "a@b.c"))

abbrev tables_of : {A : Type 0} → Transaction A → Store
tables_of (failed e) = store
tables_of (done x t) = t

abbrev with_draft : Store
with_draft = tables_of (create_draft hash (codes "d") input store)

addresses :
    (recipient_from_application_method (stated (codes "email") (codes " a@b.c "))
      ≡ some (codes "a@b.c"))
    × (recipient_from_application_method (stated (codes "email") (codes "a@b@c.d")) ≡ none)
    × (recipient_from_application_method (stated (codes "email") (codes "a@.b")) ≡ none)
    × (recipient_from_application_method (stated (codes "url") (codes "a@b.c")) ≡ none)
unfolding recipient_from_application_method
addresses = (refl, refl, refl, refl)

canonical_text :
    canonical (bound_content (record draft { body = 34 ∷ 10 ∷ 1 ∷ 55357 ∷ 56832 ∷ 55357 ∷ [] }))
    ≡ codes "[\"outreach-approval-v1\",\"email\",\"a@b.c\",\"Hi\",\"\\\"\\n\\u0001"
      ++ 55357 ∷ 56832 ∷ codes "\\ud83d\",[],\"p\",2,\"or\",\"lr\"]"
unfolding canonical escape escape_unit short_escape hex4 decimal decimal_from
canonical_text = refl

created_draft : create_draft hash (codes "d") input store ≡ done draft with_draft
unfolding create_draft create_for_listing recipient_from_application_method
created_draft = refl

store-IsSound : IsSound hash store
store-IsSound = ((λ id. omega arith), tt)

abbrev approval : OutreachApproval
approval = record {
  id = codes "a";
  draft_id = codes "d";
  content_hash = hash (bound_content draft);
  approved_at = 2;
  invalidated_at = none;
  invalidation_reason = none;
}

abbrev with_approval : Store
with_approval = tables_of (approve_draft hash (codes "a") (shown hash draft 2) with_draft)

given : approve_draft hash (codes "a") (shown hash draft 2) with_draft ≡ done approval with_approval
unfolding create_draft create_for_listing recipient_from_application_method approve_draft
    approve_locked lock_draft content_hash canonical escape escape_unit short_escape decimal
    decimal_from bound_inputs_staleness
given = refl

with_draft-IsSound : IsSound hash with_draft
with_draft-IsSound =
    Steps-IsSound hash store with_draft (and_then no_step (created (codes "d") input created_draft))
      store-IsSound

Steps-IsSound_example : IsSound hash with_approval
Steps-IsSound_example =
    Steps-IsSound hash store with_approval
      (and_then (and_then no_step (created (codes "d") input created_draft))
        (approved (codes "a") (shown hash draft 2) given))
      store-IsSound

found : find_draft (codes "d") with_draft ≡ some draft
unfolding create_draft create_for_listing recipient_from_application_method
found = refl

fresh : bound_inputs_staleness draft with_draft ≡ none
unfolding create_draft create_for_listing recipient_from_application_method bound_inputs_staleness
fresh = refl

live : find_live hash (codes "d") with_approval ≡ some approval
unfolding create_draft create_for_listing recipient_from_application_method approve_draft
    approve_locked lock_draft content_hash canonical escape escape_unit short_escape decimal
    decimal_from bound_inputs_staleness
live = refl

still_found : find_draft (codes "d") with_approval ≡ some draft
unfolding create_draft create_for_listing recipient_from_application_method approve_draft
    approve_locked lock_draft content_hash canonical escape escape_unit short_escape decimal
    decimal_from bound_inputs_staleness
still_found = refl

approve_draft-binds_example :
    (before : OutreachDraft) × (find_draft (codes "d") with_draft ≡ some before)
    × (before.subject ≡ some (codes "Hi"))
    × (before.body ≡ codes "Dear")
    × ((bound_content draft ≡ bound_content before)
        ⊎ IsCollision (λ s. s) (canonical (bound_content draft)) (canonical (bound_content before)))
approve_draft-binds_example =
    approve_draft-binds (λ s. s) (codes "a") (shown hash draft 2) with_draft with_approval
      with_approval approval draft with_draft-IsSound given no_step live still_found

approve_draft-approves_example :
    (a : OutreachApproval) × (u : Store) × (approve_draft hash
        (codes "a")
        (shown hash draft 2)
        with_draft
      ≡ done a u)
    × (approval_state hash draft u ≡ current a.approved_at (hash (bound_content draft)))
    × (approve_draft hash (codes "b") (shown hash draft 3) u ≡ done a u)
approve_draft-approves_example =
    approve_draft-approves hash (codes "a") (codes "b") draft 2 3 with_draft with_draft-IsSound
      found refl fresh

canonical-injective_example : bound_content draft ≡ bound_content draft
canonical-injective_example = canonical-injective (bound_content draft) (bound_content draft) refl

-- Two forms that were loaded with the draft as it was first.
abbrev edit : EditDraftInput
edit = record {
  draft_id = codes "d";
  subject = some (codes "Hi");
  body = codes "Dear all";
  expected_content_hash = hash (bound_content draft);
  now = 4;
}

abbrev with_edit : Store
with_edit = tables_of (edit_draft hash edit with_approval)

saved_edit : edit_draft hash edit with_approval ≡ done (with_text hash edit draft) with_edit
unfolding create_draft create_for_listing recipient_from_application_method approve_draft
    approve_locked lock_draft content_hash canonical escape escape_unit short_escape decimal
    decimal_from bound_inputs_staleness edit_draft edit_locked invalidate_live_approval
saved_edit = refl

edit_differs : hash (bound_content (with_text hash edit draft)) ≢ hash (bound_content draft)
unfolding content_hash
edit_differs = λ e.
    let same =
      canonical-injective (bound_content (with_text hash edit draft)) (bound_content draft) e in
    let lengths = ap (λ (b : BoundContent). length b.body) same in absurd (omega arith)

edit_draft-conflict_example :
    (approval_state hash (with_text hash edit draft) with_edit ≡ no_approval)
    × (edit_draft hash edit with_edit ≡ failed content_changed)
    × ((approve_draft hash (codes "b") (shown hash draft 5) with_edit ≡ failed unsaved_edits)
        ⊎ (approve_draft hash (codes "b") (shown hash draft 5) with_edit ≡ failed content_changed))
edit_draft-conflict_example =
    edit_draft-conflict hash edit edit (shown hash draft 5) (codes "b") with_approval with_edit
      (with_text hash edit draft) saved_edit edit_differs refl refl refl refl refl
