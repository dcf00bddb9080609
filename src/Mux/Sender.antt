-- ===== src/Mux/Sender.antt =====
-- `MuxSender` and `MuxSenderBudget` of src/remote-mux-sender.ts: one text message is sent as one
-- WebSocket message in fragments, one fragment at a time, under high and low water marks.
-- A message enters as its UTF-8 bytes, since the code reads the text only by `Buffer.byteLength`
-- and `Buffer.from`. `wire` (the frames handed to `socket.send`, in order), `unflushed` (the frames
-- whose write callback the socket still holds) and `log` (the calls of `onBusy`, `onIdle`,
-- `onProgress`, `onFailure`, `onReject`, newest first) are the environment's view of one sender.
-- The callbacks are taken not to call back into the sender. The budget that carriers share stands in
-- `shared_budget` for the length of a call; Fleet keeps it between the calls of all of them.
pub mod Wire
pub mod Invariant
pub mod Pump
pub mod Steps
pub mod Accept
pub mod Shared
pub mod Drain
pub mod Tests
pub mod Run
pub mod Fleet
use dsh_passwords.Prelude.{
  ℕ, suc, ◌+◌, ◌-◌, min, Bool, true, false, not, ◌&&◌, ◌||◌, Option, none, some, List, [], ◌∷◌,
  ◌++◌, ltb, leb, ◌==◌, if◌then◌else◌, is_some, length, take, drop,
}

abbrev pub mux_socket_open : ℕ
mux_socket_open = 1

pub data AcceptOutcome : Type 0 where
  accepted oversized overflow queue_full closed alloc_failed : AcceptOutcome

pub data RejectKind : Type 0 where
  message_bytes accepted_bytes_kind queue_count queue_bytes_kind : RejectKind

pub data Event : Type 0 where
  busy idle progress failure : Event
  reject : RejectKind → ℕ → Event

-- What a call reads of the socket: `readyState`, `bufferedAmount` and whether `send` throws.
pub record Socket : Type 0 where
  pub ready_state : ℕ
  pub buffered_amount : ℕ
  pub send_throws : Bool

pub record Options : Type 0 where
  pub fragment_bytes : ℕ
  pub high_water_bytes : ℕ
  pub low_water_bytes : ℕ
  pub max_message_bytes : ℕ
  pub accept_budget_bytes : ℕ
  pub max_queue_messages : ℕ
  pub max_queue_bytes : ℕ

-- The object's identity is `id`: the code compares messages by reference.
pub record Item : Type 0 where
  pub id : ℕ
  pub generation : ℕ
  pub tag : Option ℕ
  pub bytes : List ℕ

-- A fragment on the wire, with what its write callback closes over.
pub record Frame : Type 0 where
  pub message : Item
  pub chunk : List ℕ
  pub fin : Bool

-- `MuxSenderBudget`: one object that several carriers share.
pub record Budget : Type 0 where
  pub max_bytes : ℕ
  pub reserved_bytes : ℕ

pub try_reserve : ℕ → Budget → Option Budget
try_reserve bytes b =
    if ltb b.max_bytes (b.reserved_bytes + bytes)
    then none
    else some (record b { reserved_bytes = b.reserved_bytes + bytes })

-- The code subtracts and then raises a negative result to 0.
pub release : ℕ → Budget → Budget
release bytes b = record b { reserved_bytes = b.reserved_bytes - bytes }

pub record Sender : Type 0 where
  pub generation : ℕ
  pub disposed : Bool
  pub is_busy : Bool
  pub queue : List Item
  pub queue_bytes : ℕ
  pub accepted_bytes : ℕ
  pub current : Option Item
  pub fragment_offset : ℕ
  pub awaiting_flush : Bool
  pub draining : Bool
  pub drain_last_buffered : Option ℕ
  pub shared_budget : Option Budget
  pub next_id : ℕ
  pub wire : List Frame
  pub unflushed : List Frame
  pub log : List Event

abbrev pub release_shared : ℕ → Option Budget → Option Budget
release_shared bytes none = none
release_shared bytes (some b) = some (release bytes b)

pub new_sender : Option Budget → Sender
new_sender budget = record {
  generation = 0;
  disposed = false;
  is_busy = false;
  queue = [];
  queue_bytes = 0;
  accepted_bytes = 0;
  current = none;
  fragment_offset = 0;
  awaiting_flush = false;
  draining = false;
  drain_last_buffered = none;
  shared_budget = budget;
  next_id = 0;
  wire = [];
  unflushed = [];
  log = [];
}

abbrev pub emit : Event → Sender → Sender
emit e s = record s { log = e ∷ s.log }

-- `refreshBusy`: the edges between idle and busy.
pub refresh_busy : Sender → Sender
refresh_busy s =
    if ltb 0 s.accepted_bytes && not s.is_busy
    then emit busy (record s { is_busy = true })
    else if not (ltb 0 s.accepted_bytes) && s.is_busy
    then emit idle (record s { is_busy = false })
    else s

pub dispose : Sender → Sender
dispose s = if s.disposed then s else record s {
  disposed = true;
  generation = s.generation + 1;
  shared_budget = release_shared s.accepted_bytes s.shared_budget;
  draining = false;
  queue = [];
  queue_bytes = 0;
  accepted_bytes = 0;
  current = none;
  fragment_offset = 0;
  awaiting_flush = false;
  drain_last_buffered = none;
  is_busy = false;
}

-- `fail`: settle the state first, then notify once.
pub fail : Sender → Sender
fail s = if s.disposed then s else emit failure (dispose s)

-- `commit` past the water mark: the frame goes to the socket and its callback is awaited.
pub write : Socket → Item → List ℕ → Bool → Sender → Sender
write sock message chunk is_last s =
    let frame : Frame = record { message = message; chunk = chunk; fin = is_last } in
    if not (sock.ready_state == mux_socket_open)
    then fail s
    else if sock.send_throws
    then fail (record s { awaiting_flush = false })
    else record s {
      awaiting_flush = true;
      wire = s.wire ++ frame ∷ [];
      unflushed = s.unflushed ++ frame ∷ [];
    }

pub commit : Options → Socket → Item → List ℕ → Bool → Sender → Sender
commit o sock message chunk is_last s =
    if ltb 0 o.fragment_bytes && ltb o.high_water_bytes sock.buffered_amount
    then record s { drain_last_buffered = some sock.buffered_amount; draining = true }
    else write sock message chunk is_last s

abbrev pub size : Item → ℕ
size m = length m.bytes

pub submit_fragment : Options → Socket → Item → Sender → Sender
submit_fragment o sock message s =
    let end = min (s.fragment_offset + o.fragment_bytes) (size message) in
    if leb o.fragment_bytes 0
    then commit o sock message message.bytes true s
    else commit o sock message
        (take (end - s.fragment_offset) (drop s.fragment_offset message.bytes))
        (leb (size message) end) s

-- The part of `pump` behind its guards.
abbrev pub pump_next : Options → Socket → Option Item → List Item → Sender → Sender
pump_next o sock (some message) queue s = submit_fragment o sock message s
pump_next o sock none [] s = s
pump_next o sock none (next ∷ rest) s = submit_fragment o sock next (record s {
  queue = rest;
  queue_bytes = s.queue_bytes - size next;
  current = some next;
  fragment_offset = 0;
})

pub pump : Options → Socket → Sender → Sender
pump o sock s =
    if s.disposed || s.awaiting_flush || s.draining then s else pump_next o sock s.current s.queue s

abbrev pub reject_with : AcceptOutcome → RejectKind → ℕ → Sender → Sender × AcceptOutcome
reject_with out kind n s = (emit (reject kind n) s, out)

abbrev pub push_item : Option ℕ → List ℕ → Option Budget → Sender → Sender
push_item tag bytes budget s =
    let item : Item = record {
      id = s.next_id;
      generation = s.generation;
      tag = tag;
      bytes = bytes;
    } in
    record s {
      queue = s.queue ++ item ∷ [];
      queue_bytes = s.queue_bytes + length bytes;
      accepted_bytes = s.accepted_bytes + length bytes;
      shared_budget = budget;
      next_id = s.next_id + 1;
    }

-- The accepting tail of `enqueue`, behind every guard.
pub accept : Options → Socket → Option ℕ → List ℕ → Option Budget → Sender → Sender
accept o sock tag bytes budget s = pump o sock (refresh_busy (push_item tag bytes budget s))

abbrev pub reserve_shared : ℕ → Option Budget → Option (Option Budget)
reserve_shared n none = some none
reserve_shared n (some b) = elim (try_reserve n b) [ none ↦ none | some b' ↦ some (some b') ]

-- `alloc_ok` is false where `Buffer.from` throws: the reservation is released and the error passed on.
pub reserve_and_accept :
    Options
    → Socket
    → Bool
    → Option ℕ
    → List ℕ
    → Option (Option Budget)
    → Sender
    → Sender × AcceptOutcome
reserve_and_accept o sock alloc_ok tag bytes none s =
    reject_with overflow accepted_bytes_kind (length bytes) s
reserve_and_accept o sock alloc_ok tag bytes (some budget) s =
    if alloc_ok
    then (accept o sock tag bytes budget s, accepted)
    else (record s { shared_budget = release_shared (length bytes) budget }, alloc_failed)

-- The guards that hold only for a message that has to wait, and what follows them.
pub enqueue_behind : Options → Socket → Bool → Option ℕ → List ℕ → Sender → Sender × AcceptOutcome
enqueue_behind o sock alloc_ok tag bytes s =
    if is_some s.current && ltb o.max_queue_messages (length s.queue + 1)
    then reject_with queue_full queue_count (length bytes) s
    else if is_some s.current && ltb o.max_queue_bytes (s.queue_bytes + length bytes)
    then reject_with queue_full queue_bytes_kind (length bytes) s
    else reserve_and_accept o sock alloc_ok tag bytes
        (reserve_shared (length bytes) s.shared_budget) s

pub enqueue : Options → Socket → Bool → Option ℕ → List ℕ → Sender → Sender × AcceptOutcome
enqueue o sock alloc_ok tag bytes s =
    if s.disposed
    then (s, closed)
    else if ltb o.max_message_bytes (length bytes)
    then reject_with oversized message_bytes (length bytes) s
    else if ltb o.accept_budget_bytes (s.accepted_bytes + length bytes)
    then reject_with overflow accepted_bytes_kind (length bytes) s
    else enqueue_behind o sock alloc_ok tag bytes s

abbrev pub has_tag : ℕ → Item → Bool
has_tag t m = elim m.tag [ none ↦ false | some u ↦ u == t ]

abbrev pub kept : ℕ → List Item → List Item
kept t [] = []
kept t (m ∷ ms) = if has_tag t m then kept t ms else m ∷ kept t ms

abbrev pub removed_messages : ℕ → List Item → ℕ
removed_messages t [] = 0
removed_messages t (m ∷ ms) =
    if has_tag t m then suc (removed_messages t ms) else removed_messages t ms

abbrev pub removed_bytes : ℕ → List Item → ℕ
removed_bytes t [] = 0
removed_bytes t (m ∷ ms) = if has_tag t m then size m + removed_bytes t ms else removed_bytes t ms

pub record CancelResult : Type 0 where
  pub messages : ℕ
  pub bytes : ℕ
  pub started : Bool

abbrev pub is_started : ℕ → Option Item → Bool
is_started t none = false
is_started t (some m) = has_tag t m

abbrev pub drop_tag : ℕ → Sender → Sender
drop_tag t s = record s {
  queue = kept t s.queue;
  queue_bytes = s.queue_bytes - removed_bytes t s.queue;
  accepted_bytes = s.accepted_bytes - removed_bytes t s.queue;
  shared_budget = release_shared (removed_bytes t s.queue) s.shared_budget;
}

pub cancel : ℕ → Sender → Sender × CancelResult
cancel t s = if s.disposed then (s, record { messages = 0; bytes = 0; started = false }) else (
  refresh_busy (drop_tag t s),
  record {
    messages = removed_messages t s.queue;
    bytes = removed_bytes t s.queue;
    started = is_started t s.current;
  },
)

abbrev pub same_message : Option Item → Item → Bool
same_message none m = false
same_message (some c) m = c.id == m.id

abbrev pub charge_off : Item → Sender → Sender
charge_off message s = record s {
  current = none;
  fragment_offset = 0;
  accepted_bytes = s.accepted_bytes - size message;
  shared_budget = release_shared (size message) s.shared_budget;
}

-- The end of a message: the whole message is charged off at once.
pub finish_message : Item → Sender → Sender
finish_message message s = refresh_busy (charge_off message s)

abbrev pub advance : Frame → Sender → Sender
advance f s =
    if f.fin
    then finish_message f.message s
    else record s { fragment_offset = s.fragment_offset + length f.chunk }

-- `onFlush`; `failed` says that the callback carries an error.
pub on_flush : Options → Socket → Frame → Bool → Sender → Sender
on_flush o sock f failed s =
    if s.disposed
      || not (same_message s.current f.message)
      || not (f.message.generation == s.generation)
    then s
    else if failed
    then fail (record s { awaiting_flush = false })
    else pump o sock (advance f (emit progress (record s { awaiting_flush = false })))

abbrev pub note_drop : Option ℕ → ℕ → Sender → Sender
note_drop none buffered s = s
note_drop (some last) buffered s = if ltb buffered last then emit progress s else s

-- The poll of `awaitDrain`; a poll that re-arms keeps `draining`.
pub on_drain_poll : Options → Socket → Sender → Sender
on_drain_poll o sock s =
    let polled : Sender = note_drop s.drain_last_buffered sock.buffered_amount s in
    if s.disposed
    then record s { draining = false }
    else if not (sock.ready_state == mux_socket_open)
    then fail (record s { draining = false })
    else if leb sock.buffered_amount o.low_water_bytes
    then pump o sock (record polled { draining = false; drain_last_buffered = none })
    else record polled { drain_last_buffered = some sock.buffered_amount }

-- The socket calls the oldest write callback that it holds.
abbrev pub fire_oldest : Options → Socket → Bool → List Frame → Sender → Sender
fire_oldest o sock failed [] s = s
fire_oldest o sock failed (f ∷ rest) s = on_flush o sock f failed (record s { unflushed = rest })

pub fire_flush : Options → Socket → Bool → Sender → Sender
fire_flush o sock failed s = fire_oldest o sock failed s.unflushed s
