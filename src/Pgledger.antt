-- ===== src/Pgledger.antt =====
-- The durable spend ledger's writer, internal/pgledger/pgledger.go: a bounded channel of records, a
-- loop that batches and flushes them, and Close. The flush function is the code that talks to
-- Postgres: here it is only whether it failed. The event time of a record is the clock at its Write.
pub mod Shutdown
pub mod Account
use heave.Prelude.{
  ℕ, zero, suc, ◌+◌, Bool, true, false, List, [], ◌∷◌, ◌++◌, ltb, leb, ◌==◌, if◌then◌else◌, length,
  Bytes,
}
use heave.Ledger

-- A record and the time it was enqueued.
pub record Entry : Type 0 where
  pub rec : Ledger.Entry
  pub ts : ℕ

-- `done` is the closed channel of that name; `draining` is the loop's last part, after `quit`.
pub data Phase : Type 0 where
  running draining stopped : Phase

-- The channel, oldest first, with its size; the loop's batch and phase; the flags of Close.
pub record Store : Type 0 where
  pub ch : List Entry
  pub size : ℕ
  pub batch_n : ℕ
  pub batch : List Entry
  pub dropped : ℕ
  pub closed : Bool
  pub phase : Phase

unfoldable pub new_store : ℕ → ℕ → Store
new_store size batch_n = record {
  ch = [];
  size = size;
  batch_n = batch_n;
  batch = [];
  dropped = 0;
  closed = false;
  phase = running;
}

-- The select of Write: a full channel drops the record.
unfoldable pub send : Store → Entry → Store
send s e =
    if ltb (length s.ch) s.size
    then record s { ch = s.ch ++ (e ∷ []) }
    else record s { dropped = suc s.dropped }

unfoldable pub write : Store → Entry → Store
unfolding send
write s e = if s.closed then record s { dropped = suc s.dropped } else send s e

-- `doFlush`, with whether the flush fails. An empty batch is not flushed.
unfoldable pub do_flush : Bool → Store → Store
do_flush fails s = record s {
  batch = [];
  dropped = if fails then s.dropped + length s.batch else s.dropped;
}

-- One receive of the loop: the record joins the batch, and a full batch is flushed.
unfoldable pub receive : Bool → Entry → List Entry → Store → Store
unfolding do_flush
receive fails e rest s =
    let t : Store = record s { ch = rest; batch = s.batch ++ (e ∷ []) } in
    if leb t.batch_n (length t.batch) then do_flush fails t else t

-- The drain of the loop once `quit` is closed and nothing more is sent: each receive, then the last
-- flush. The list tells of each flush whether it fails; one that is left out does not.
unfoldable pub drain : List Entry → List Bool → Store → Store
unfolding receive do_flush
drain [] [] s = record (do_flush false s) { phase = stopped }
drain [] (fails ∷ rest) s = record (do_flush fails s) { phase = stopped }
drain (e ∷ ch) [] s = drain ch [] (receive false e ch s)
drain (e ∷ ch) (fails ∷ rest) s = drain ch rest (receive fails e ch s)

-- The sweep at the end of Close.
unfoldable pub sweep : Store → Store
sweep s = record s { ch = []; dropped = s.dropped + length s.ch }

-- Close with no Write under way.
unfoldable pub close : List Bool → Store → Store
unfolding drain sweep
close fails s = sweep (drain s.ch fails (record s { closed = true; phase = draining }))

-- `strings.ReplaceAll(s, "\x00", "")`
unfoldable pub clean_text : Bytes → Bytes
clean_text [] = []
clean_text (c ∷ s) = if c == 0 then clean_text s else c ∷ clean_text s

-- One row of writeBatch.
unfoldable pub row_of : Entry → Entry
unfolding clean_text
row_of e = record e {
  rec = record e.rec {
    request_id = clean_text e.rec.request_id;
    alias = clean_text e.rec.alias;
    provider = clean_text e.rec.provider;
    upstream = clean_text e.rec.upstream;
    user = clean_text e.rec.user;
    run_id = clean_text e.rec.run_id;
    status = clean_text e.rec.status;
  };
}
