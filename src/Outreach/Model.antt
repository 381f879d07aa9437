-- ===== src/Outreach/Model.antt =====
-- The tables of outreach (src/db/schema/outreach.ts, and the columns of the other tables that
-- src/outreach/draft-store.ts reads), and what an approval binds. Instants are
-- numbers, an id or another text is the list of its UTF-16 code units. `auditEvents.details` is kept in the action's
-- constructor.
use scraplify.Base.{
  ℕ, Bool, true, false, not, ◌&&◌, ◌||◌, Option, none, some, List, [], ◌∷◌, leb, ◌==◌, nat_eq,
  if◌then◌else◌, length, all, Text, list_eq, trim, is_space,
}

pub record CandidateProfile : Type 0 where
  pub id : Text
  pub version : ℕ
  pub deleted_at : Option ℕ

pub record CandidateProfileClaim : Type 0 where
  pub id : Text
  pub profile_id : Text
  pub profile_version : ℕ

pub record Opportunity : Type 0 where
  pub id : Text
  pub current_canonical_revision_id : Option Text

pub record Membership : Type 0 where
  pub opportunity_id : Text
  pub source_listing_id : Text
  pub superseded_at : Option ℕ

pub record ListingPointer : Type 0 where
  pub id : Text
  pub current_revision_id : Option Text

-- The JSON value of a listing's application method: an object whose `type` and `value` are texts,
-- or anything else.
pub data ApplicationMethod : Type 0 where
  stated : (kind value : Text) → ApplicationMethod
  other_method : ApplicationMethod

pub record ListingRevision : Type 0 where
  pub id : Text
  pub application_method : ApplicationMethod

pub data DraftKind : Type 0 where
  email cover_letter : DraftKind

pub record OutreachDraft : Type 0 where
  pub id : Text
  pub profile_id : Text
  pub profile_version : ℕ
  pub opportunity_id : Text
  pub opportunity_revision_id : Text
  pub source_listing_id : Text
  pub source_listing_revision_id : Text
  pub kind : DraftKind
  pub recipient : Option Text
  pub subject : Option Text
  pub body : Text
  pub language : Text
  pub generator : Text
  pub claim_ids : List Text
  pub created_at : ℕ
  pub updated_at : ℕ
  pub deleted_at : Option ℕ

pub data Reason : Type 0 where
  edited deleted : Reason

pub record OutreachApproval : Type 0 where
  pub id : Text
  pub draft_id : Text
  pub content_hash : Text
  pub approved_at : ℕ
  pub invalidated_at : Option ℕ
  pub invalidation_reason : Option Reason

pub data AuditAction : Type 0 where
  draft_generated : (content_hash generator : Text) → DraftKind → (claim_count : ℕ) → AuditAction
  draft_edited : (previous_hash content_hash : Text) → AuditAction
  draft_approved : (approval_id : Text) → (content_hash : Text) → AuditAction
  approval_invalidated : (approval_id : Text) → (approved_hash : Text) → Reason → AuditAction
  draft_deleted : (content_hash : Text) → AuditAction

pub record AuditEvent : Type 0 where
  pub entity_id : Text
  pub action : AuditAction
  pub occurred_at : ℕ

pub record Store : Type 0 where
  pub profiles : List CandidateProfile
  pub claims : List CandidateProfileClaim
  pub opportunities : List Opportunity
  pub memberships : List Membership
  pub listings : List ListingPointer
  pub revisions : List ListingRevision
  pub drafts : List OutreachDraft
  pub approvals : List OutreachApproval
  pub audit_events : List AuditEvent

-- The fields that an approval binds.
pub record BoundContent : Type 0 where
  pub kind : DraftKind
  pub recipient : Option Text
  pub subject : Option Text
  pub body : Text
  pub profile_id : Text
  pub profile_version : ℕ
  pub opportunity_revision_id : Text
  pub source_listing_revision_id : Text

abbrev pub bound_content : OutreachDraft → BoundContent
bound_content draft = record {
  kind = draft.kind;
  recipient = draft.recipient;
  subject = draft.subject;
  body = draft.body;
  profile_id = draft.profile_id;
  profile_version = draft.profile_version;
  opportunity_revision_id = draft.opportunity_revision_id;
  source_listing_revision_id = draft.source_listing_revision_id;
}

-- `[^\s@]`.
abbrev pub is_address_char : ℕ → Bool
is_address_char c = not (is_space c || c == b'@')

-- `\.[^\s@]+$` at some place, with at least one character before it.
abbrev pub has_dot_inside : Text → Bool
has_dot_inside [] = false
has_dot_inside (c ∷ []) = false
has_dot_inside (c ∷ d ∷ s) = d == b'.' && leb 1 (length s) || has_dot_inside (d ∷ s)

-- `[^\s@]+\.[^\s@]+$`.
abbrev pub is_domain : Text → Bool
is_domain s = all is_address_char s && has_dot_inside s

abbrev pub is_address_from : (before : Bool) → Text → Bool
is_address_from before [] = false
is_address_from before (c ∷ s) =
    if c == b'@' then before && is_domain s else is_address_char c && is_address_from true s

-- /^[^\s@]+@[^\s@]+\.[^\s@]+$/
abbrev pub is_address : Text → Bool
is_address s = is_address_from false s

abbrev pub email_word : Text
email_word = b'e' ∷ b'm' ∷ b'a' ∷ b'i' ∷ b'l' ∷ []

unfoldable pub recipient_from_application_method : ApplicationMethod → Option Text
recipient_from_application_method other_method = none
recipient_from_application_method (stated kind value) =
    let address : Text = trim value in
    if kind == email_word && is_address address then some address else none
