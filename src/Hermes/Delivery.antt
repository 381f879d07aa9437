-- ===== src/Hermes/Delivery.antt =====
-- Sending the waiting events (src/hermes/deliver.ts, with listOutbox of src/hermes/outbox.ts). A
-- directory is the list of its files; other entries of it are left out. What is outside is given:
-- which content is an event (JSON, the schema of src/hermes/schema.ts and this host's name), the
-- time at which each file is looked at, Hermes' answer to it, and whether it can be moved. The
-- removal of a delivered file is taken to succeed. Files that other processes write while this runs
-- are the batches: one for each listing of the outbox. Logging and the signature are left out.
pub mod Accounts
pub mod Keeping
pub mod Ordering
pub mod Emptying
mod Tests
use scraplify.Base.{
  ℕ, suc, ◌+◌, ◌-◌, ◌*◌, Bool, true, false, not, ◌&&◌, ◌||◌, Option, none, some, List, [], ◌∷◌,
  ◌++◌, ltb, leb, ◌==◌, nat_eq, list_eq, if◌then◌else◌, length, filter, map, has, is_none, Text,
  trim,
}
use scraplify.Hermes.Hook.{HookConfig, Verdict, delivered, retry, dead, verdict_of}

pub record File : Type 0 where
  pub name : Text
  pub content : Text

pub record PendingEvent : Type 0 where
  pub name : Text
  pub event_id : Text
  pub emitted_at_ms : ℕ

-- An event as the schema lets it through; a file's content is its bytes.
pub record HermesEvent : Type 0 where
  pub event_id : Text
  pub emitted_at_ms : ℕ

-- `answer` is the status, none where the request fails or times out; `locale_before` is
-- `a.localeCompare(b) <= 0`.
pub record World : Type 0 where
  pub read_event : Text → Option HermesEvent
  pub now : Text → ℕ
  pub answer : Text → Option ℕ
  pub can_move : Text → Bool
  pub locale_before : Text → Text → Bool

abbrev pub max_event_age_ms : ℕ
max_event_age_ms = 14 * 24 * 60 * 60 * 1000

abbrev pub max_event_bytes : ℕ
max_event_bytes = 16 * 1024

-- `seen` and `sent` hold file names, the four lists of the result event ids.
pub record DeliveryRun : Type 0 where
  pub outbox : List File
  pub dead_dir : List File
  pub seen : List Text
  pub sent : List Text
  pub delivered_ids : List Text
  pub kept_ids : List Text
  pub dead_ids : List Text
  pub stuck_ids : List Text
  pub unreachable : Bool

abbrev pub is_named : Text → File → Bool
is_named name f = f.name == name

abbrev pub is_not_named : Text → File → Bool
is_not_named name f = not (f.name == name)

abbrev pub names : List File → List Text
names files = map (λ (f : File). f.name) files

-- A rename into the dead directory replaces a file of that name there, and fails where the outbox
-- has no such file.
unfoldable pub bury : World → Text → Text → DeliveryRun → DeliveryRun
bury w name event_id r =
    if w.can_move name && has name (names r.outbox)
    then record r {
      outbox = filter (is_not_named name) r.outbox;
      dead_dir = filter (is_not_named name) r.dead_dir ++ filter (is_named name) r.outbox;
      dead_ids = r.dead_ids ++ event_id ∷ [];
    }
    else record r { stuck_ids = r.stuck_ids ++ event_id ∷ [] }

abbrev pub with_name : Text → Option HermesEvent → Option PendingEvent
with_name name none = none
with_name name (some e) =
    some (record { name = name; event_id = e.event_id; emitted_at_ms = e.emitted_at_ms })

-- What is read of a file; one that is larger than an event is none.
unfoldable pub read_pending : World → File → Option PendingEvent
read_pending w f =
    if ltb max_event_bytes (length f.content)
    then none
    else with_name f.name (w.read_event f.content)

abbrev pub sort_or_bury :
    World
    → File
    → Option PendingEvent
    → DeliveryRun × List PendingEvent
    → DeliveryRun × List PendingEvent
sort_or_bury w f none (r, pending) = (bury w f.name f.name r, pending)
sort_or_bury w f (some e) (r, pending) = (r, pending ++ e ∷ [])

-- The listed files in turn: each is marked as seen, and read.
unfoldable pub read_files :
    World → List File → DeliveryRun × List PendingEvent → DeliveryRun × List PendingEvent
unfolding read_pending bury
read_files w [] (r, pending) = (r, pending)
read_files w (f ∷ files) (r, pending) =
    read_files w files
      (sort_or_bury w f (read_pending w f) (record r { seen = r.seen ++ f.name ∷ [] }, pending))

abbrev pub goes_before : World → PendingEvent → PendingEvent → Bool
goes_before w a b =
    ltb a.emitted_at_ms b.emitted_at_ms
    || (a.emitted_at_ms == b.emitted_at_ms && w.locale_before a.name b.name)

abbrev pub insert_pending : World → PendingEvent → List PendingEvent → List PendingEvent
insert_pending w e [] = e ∷ []
insert_pending w e (p ∷ ps) = if goes_before w e p then e ∷ p ∷ ps else p ∷ insert_pending w e ps

-- `pending.sort(...)`: by emission, then by name.
abbrev pub sort_pending : World → List PendingEvent → List PendingEvent
sort_pending w [] = []
sort_pending w (e ∷ es) = insert_pending w e (sort_pending w es)

pub data Sending : Type 0 where
  go_on : DeliveryRun → Sending
  stop : DeliveryRun → Sending

abbrev pub after_verdict :
    World → PendingEvent → List PendingEvent → DeliveryRun → Verdict → Sending
after_verdict w e waiting r delivered = go_on (record r {
  outbox = filter (is_not_named e.name) r.outbox;
  delivered_ids = r.delivered_ids ++ e.event_id ∷ [];
})
after_verdict w e waiting r dead = go_on (bury w e.name e.event_id r)
after_verdict w e waiting r retry = stop (record r {
  unreachable = true;
  kept_ids = r.kept_ids ++ map (λ (p : PendingEvent). p.event_id) (e ∷ waiting);
})

abbrev pub when_fresh :
    World → Option HookConfig → PendingEvent → List PendingEvent → DeliveryRun → Sending
when_fresh w none e waiting r = go_on (record r { kept_ids = r.kept_ids ++ e.event_id ∷ [] })
when_fresh w (some config) e waiting r =
    after_verdict w e waiting (record r { sent = r.sent ++ e.name ∷ [] })
      (verdict_of (w.answer e.name))

-- One event of the pending ones, with those that wait after it.
unfoldable pub send_event :
    World → Option HookConfig → PendingEvent → List PendingEvent → DeliveryRun → Sending
unfolding bury
send_event w config e waiting r =
    if ltb max_event_age_ms (w.now e.name - e.emitted_at_ms)
    then go_on (bury w e.name e.event_id r)
    else when_fresh w config e waiting r

abbrev pub and_then : (DeliveryRun → DeliveryRun) → Sending → DeliveryRun
and_then f (go_on r) = f r
and_then f (stop r) = r

unfoldable pub send_pending :
    World → Option HookConfig → List PendingEvent → DeliveryRun → DeliveryRun
unfolding send_event
send_pending w config [] r = r
send_pending w config (e ∷ es) r = and_then (send_pending w config es) (send_event w config e es r)

abbrev pub text_before : Text → Text → Bool
text_before [] t = true
text_before (c ∷ s) [] = false
text_before (c ∷ s) (d ∷ t) = ltb c d || (c == d && text_before s t)

abbrev pub insert_file : File → List File → List File
insert_file f [] = f ∷ []
insert_file f (g ∷ gs) = if text_before f.name g.name then f ∷ g ∷ gs else g ∷ insert_file f gs

-- `names.sort()`: by code units.
abbrev pub sort_files : List File → List File
sort_files [] = []
sort_files (f ∷ fs) = insert_file f (sort_files fs)

abbrev pub is_nil : List File → Bool
is_nil [] = true
is_nil (f ∷ fs) = false

abbrev pub is_new_file : DeliveryRun → File → Bool
is_new_file r f = not (has f.name r.seen)

abbrev pub read_then_send :
    World → Option HookConfig → DeliveryRun × List PendingEvent → DeliveryRun
read_then_send w config (r, pending) = send_pending w config (sort_pending w pending) r

-- One round of the loop, over the files of the outbox that were not seen before.
unfoldable pub delivery_pass : World → Option HookConfig → DeliveryRun → DeliveryRun
unfolding read_files send_pending
delivery_pass w config r =
    read_then_send w config (read_files w (filter (is_new_file r) (sort_files r.outbox)) (r, []))

abbrev pub arrive : List File → DeliveryRun → DeliveryRun
arrive batch r = record r { outbox = r.outbox ++ batch }

-- The loop: each batch arrives before a listing. It ends when Hermes cannot take an event, or with a
-- listing that shows nothing new; after the last batch that is the next one.
unfoldable pub deliver_batches :
    World → Option HookConfig → List (List File) → DeliveryRun → DeliveryRun
unfolding delivery_pass
deliver_batches w config [] r = r
deliver_batches w config (batch ∷ batches) r =
    let rest = deliver_batches w config batches (delivery_pass w config (arrive batch r)) in
    if r.unreachable
    then r
    else if is_nil (filter (is_new_file r) (arrive batch r).outbox)
    then arrive batch r
    else rest

abbrev pub begin_run : List File → DeliveryRun
begin_run dead_dir = record {
  outbox = [];
  dead_dir = dead_dir;
  seen = [];
  sent = [];
  delivered_ids = [];
  kept_ids = [];
  dead_ids = [];
  stuck_ids = [];
  unreachable = false;
}

-- `deliverOutbox`; the first batch is what the outbox holds at the beginning.
unfoldable pub deliver_outbox :
    World → Option HookConfig → List File → List (List File) → DeliveryRun
unfolding deliver_batches
deliver_outbox w config dead_dir batches = deliver_batches w config batches (begin_run dead_dir)
