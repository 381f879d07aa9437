-- ===== src/Hermes/Delivery/Keeping.antt =====
-- What becomes of the waiting events (src/hermes/deliver.ts): none is lost, and each file that was
-- looked at is told of once.
use scraplify.Base.{
  ◌≡◌, refl, sym, ap, subst, Bool, true, false, not, ◌&&◌, ◌||◌, Option, none, some, List, [], ◌∷◌,
  ◌++◌, ltb, ◌==◌, nat_eq, list_eq, if◌then◌else◌, filter, has, Text, and_right, has-append, ◌-◌,
  eq_of_beq, beq_refl, Bool-cases, inl, inr, arith,
}
use scraplify.Hermes.Hook.{HookConfig, Verdict, delivered, retry, dead, verdict_of}
use scraplify.Hermes.Delivery.{
  File, PendingEvent, World, DeliveryRun, names, is_named, is_not_named, bury, read_pending,
  sort_or_bury, read_files, Sending, go_on, stop, after_verdict, when_fresh, max_event_age_ms,
  send_event, and_then, send_pending, sort_files, is_nil, is_new_file, delivery_pass, arrive,
  deliver_batches,
}

abbrev is_delivered : Verdict → Bool
is_delivered delivered = true
is_delivered _ = false

-- The event of that file waits in the outbox, lies in the dead directory, or was sent and taken. A
-- file goes by its name: of two dead ones of one name the later one stays.
abbrev pub is_kept : World → Text → DeliveryRun → Bool
is_kept w name r =
    has name (names r.outbox)
    || has name (names r.dead_dir)
    || has name r.sent && is_delivered (verdict_of (w.answer name))

pub has-not_named :
    (name other : Text) (files : List File)
    → has name (names (filter (is_not_named other) files))
      ≡ (has name (names files) && not (name == other))
has-not_named name other [] = refl
has-not_named name other (f ∷ files) =
    ground (arith, has-not_named name other files, eq_of_beq name f.name, beq_refl f.name)

has-named :
    (name : Text) (files : List File)
    → has name (names (filter (is_named name) files)) ≡ has name (names files)
has-named name [] = refl
has-named name (f ∷ files) =
    ground
      (arith, has-named name files, eq_of_beq name f.name, eq_of_beq f.name name, beq_refl f.name)

has-named_other :
    (name other : Text) (files : List File)
    → (name == other) ≡ true
    → has name (names (filter (is_named other) files)) ≡ has name (names files)
has-named_other name other files e =
    subst (λ (x : Text). has name (names (filter (is_named x) files)) ≡ has name (names files))
      (eq_of_beq name other e) (has-named name files)

has-names-append :
    (name : Text) (xs ys : List File)
    → has name (names (xs ++ ys)) ≡ (has name (names xs) || has name (names ys))
has-names-append name [] ys = refl
has-names-append name (x ∷ xs) ys = ground (arith, has-names-append name xs ys)

or_true_left : (a b : Bool) → a ≡ true → (a || b) ≡ true
or_true_left a b h = ground arith

module _ (w : World) (name : Text) where
  abbrev Kept : DeliveryRun → Type 0
  Kept r = is_kept w name r ≡ true

  Kept-bury : (other event_id : Text) (r : DeliveryRun) → Kept r → Kept (bury w other event_id r)
  unfolding bury
  Kept-bury other event_id r h =
      elim (Bool-cases (w.can_move other && has other (names r.outbox))) [
        | inr e ↦ rw e h
        | inl e ↦ elim (Bool-cases (name == other)) [
          | inl same ↦
              let there : has name (names r.outbox) ≡ true =
                subst (λ (x : Text). has x (names r.outbox) ≡ true)
                  (sym (eq_of_beq name other same)) (and_right _ _ e) in
              rw
                (
                  e,
                  has-names-append name (filter (is_not_named other) r.dead_dir)
                      (filter (is_named other) r.outbox),
                  has-named_other name other r.outbox same,
                  there,
                )
                (ground arith)
          | inr differs ↦
              rw
                (
                  e,
                  has-names-append name (filter (is_not_named other) r.dead_dir)
                      (filter (is_named other) r.outbox),
                  has-not_named name other r.outbox,
                  has-not_named name other r.dead_dir,
                  differs,
                )
                (ground arith)
        ]
      ]

  Kept-delivered :
      (other event_id : Text) (r : DeliveryRun)
      → has other r.sent ≡ true
      → is_delivered (verdict_of (w.answer other)) ≡ true
      → Kept r
      → Kept (record r {
        outbox = filter (is_not_named other) r.outbox;
        delivered_ids = r.delivered_ids ++ event_id ∷ [];
      })
  Kept-delivered other event_id r sent taken h = elim (Bool-cases (name == other)) [
    | inl same ↦
        let sent_here : has name r.sent ≡ true =
          subst (λ (x : Text). has x r.sent ≡ true) (sym (eq_of_beq name other same)) sent in
        let taken_here : is_delivered (verdict_of (w.answer name)) ≡ true =
          subst (λ (x : Text). is_delivered (verdict_of (w.answer x)) ≡ true)
            (sym (eq_of_beq name other same)) taken in
        rw (sent_here, taken_here) (ground arith)
    | inr differs ↦ rw (has-not_named name other r.outbox, differs) (ground arith)
  ]

  Kept-sent :
      (other : Text) (r : DeliveryRun) → Kept r → Kept (record r { sent = r.sent ++ other ∷ [] })
  Kept-sent other r h = rw (has-append name r.sent (other ∷ [])) (ground arith)

  abbrev KeptAfter : Sending → Type 0
  KeptAfter (go_on r) = Kept r
  KeptAfter (stop r) = Kept r

  Kept-after_verdict :
      (e : PendingEvent) (waiting : List PendingEvent) (r : DeliveryRun) (v : Verdict)
      → verdict_of (w.answer e.name) ≡ v
      → has e.name r.sent ≡ true
      → Kept r
      → KeptAfter (after_verdict w e waiting r v)
  Kept-after_verdict e waiting r delivered k sent h =
      Kept-delivered e.name e.event_id r sent (ap is_delivered k) h
  Kept-after_verdict e waiting r dead k sent h = Kept-bury e.name e.event_id r h
  Kept-after_verdict e waiting r retry k sent h = h

  has_last : (other : Text) (xs : List Text) → has other (xs ++ other ∷ []) ≡ true
  has_last other xs = rw (has-append other xs (other ∷ []), beq_refl other) (ground arith)

  Kept-when_fresh :
      (config : Option HookConfig) (e : PendingEvent) (waiting : List PendingEvent)
      (r : DeliveryRun)
      → Kept r
      → KeptAfter (when_fresh w config e waiting r)
  Kept-when_fresh none e waiting r h = h
  Kept-when_fresh (some config) e waiting r h =
      Kept-after_verdict e waiting _ _ refl (has_last e.name r.sent) (Kept-sent e.name r h)

  Kept-send_event :
      (config : Option HookConfig) (e : PendingEvent) (waiting : List PendingEvent)
      (r : DeliveryRun)
      → Kept r
      → KeptAfter (send_event w config e waiting r)
  unfolding send_event
  Kept-send_event config e waiting r h =
      elim (Bool-cases (ltb max_event_age_ms (w.now e.name - e.emitted_at_ms))) [
        | inl old ↦ rw old (Kept-bury e.name e.event_id r h)
        | inr recent ↦ rw recent (Kept-when_fresh config e waiting r h)
      ]

  Kept-and_then :
      (f : DeliveryRun → DeliveryRun) (s : Sending)
      → ((r : DeliveryRun) → Kept r → Kept (f r))
      → KeptAfter s
      → Kept (and_then f s)
  Kept-and_then f (go_on r) k h = k r h
  Kept-and_then f (stop r) k h = h

  Kept-send_pending :
      (config : Option HookConfig) (es : List PendingEvent) (r : DeliveryRun)
      → Kept r
      → Kept (send_pending w config es r)
  unfolding send_pending
  Kept-send_pending config [] r h = h
  Kept-send_pending config (e ∷ es) r h =
      Kept-and_then (send_pending w config es) (send_event w config e es r)
        (Kept-send_pending config es) (Kept-send_event config e es r h)

  Kept-sort_or_bury :
      (f : File) (o : Option PendingEvent) (r : DeliveryRun) (pending : List PendingEvent)
      → Kept r
      → Kept (sort_or_bury w f o (r, pending)).0
  Kept-sort_or_bury f none r pending h = Kept-bury f.name f.name r h
  Kept-sort_or_bury f (some e) r pending h = h

  Kept-read_files :
      (files : List File) (r : DeliveryRun) (pending : List PendingEvent)
      → Kept r
      → Kept (read_files w files (r, pending)).0
  unfolding read_files
  Kept-read_files [] r pending h = h
  Kept-read_files (f ∷ files) r pending h =
      Kept-read_files files _ _ (Kept-sort_or_bury f (read_pending w f) _ pending h)

  Kept-delivery_pass :
      (config : Option HookConfig) (r : DeliveryRun) → Kept r → Kept (delivery_pass w config r)
  unfolding delivery_pass
  Kept-delivery_pass config r h =
      Kept-send_pending config _ _
        (Kept-read_files (filter (is_new_file r) (sort_files r.outbox)) r [] h)

  Kept-arrive : (batch : List File) (r : DeliveryRun) → Kept r → Kept (arrive batch r)
  Kept-arrive batch r h = rw (has-names-append name r.outbox batch) (ground arith)

  Kept-if : (b : Bool) (x y : DeliveryRun) → Kept x → Kept y → Kept (if b then x else y)
  Kept-if true x y h k = h
  Kept-if false x y h k = k

  -- An event that waits in the outbox, lies in the dead directory, or was sent and taken, is still
  -- one of these whenever the run ends, however it goes on: whatever files arrive, whatever Hermes
  -- answers or does not answer, and whether or not the hook is set up and files can be moved.
  pub deliver_batches-kept :
      (config : Option HookConfig) (batches : List (List File)) (r : DeliveryRun)
      → is_kept w name r ≡ true
      → is_kept w name (deliver_batches w config batches r) ≡ true
  unfolding deliver_batches
  deliver_batches-kept config [] r h = h
  deliver_batches-kept config (batch ∷ batches) r h =
      let s : DeliveryRun = arrive batch r in
      let arrived : Kept s = Kept-arrive batch r h in
      let rest : DeliveryRun = deliver_batches w config batches (delivery_pass w config s) in
      let ended : Bool = is_nil (filter (is_new_file r) s.outbox) in
      Kept-if r.unreachable r (if ended then s else rest) h (
        Kept-if ended s rest arrived (
          deliver_batches-kept config batches (delivery_pass w config s)
            (Kept-delivery_pass config s arrived)))
