-- ===== src/Nodes/Flow/Conservation.antt =====
-- Credit is conserved, so an honest sender never overflows the receiver; bytes are not lost,
-- invented or reordered.
use astrald.Prelude.{
  ℕ, ◌+◌, ◌%◌, ◌^◌, ◌≤◌, ◌<◌, min, ◌≡◌, refl, sym, ap, ◌∙◌, ◌⊎◌, arith, append_assoc, append-nil,
  true, false, none, some, List, [], ◌∷◌, ◌++◌, take, length, concat, length-append, length-take,
  if◌then◌else◌,
}
use astrald.Nodes.Frames.{Frame, ping, query, relay_query, response, data_frame, migrate, reset}
use astrald.Nodes.Callbacks.{default_buffer_size, on_write, on_read, send_all, on_write_chunks}
use astrald.Nodes.Buffers.Input
use astrald.Nodes.Buffers.Input.{
  InputBuffer, contents, PushResult, pushed, buffer_closed, buffer_overflow, ReadResult, bytes, eof,
}
use astrald.Nodes.Buffers.Input.Invariant.{
  IsValid, new-IsValid, push-IsValid, read-IsValid, close-IsValid,
}
use astrald.Nodes.Buffers.Input.Fifo.{data_of, contents-push, contents-read, contents-close}
use astrald.Nodes.Buffers.Output
use astrald.Nodes.Buffers.Output.{OutputBuffer, WriteResult, wrote}
use astrald.Nodes.Flow.{
  recording, Flow, Move, writes, reads, data_arrives, credit_arrives, reader_closes, writer_closes,
  credit_of, deliver, grant, give_back, move, moves, open_flow,
}

-- The bytes of the Data frames, and the credit of the Read frames, in a list of frames.
abbrev pub payload : Frame → List ℕ
payload (data_frame n p) = p
payload (ping n p) = []
payload (query q) = []
payload (relay_query c t q) = []
payload (Frame.read n l) = []
payload (response n e b) = []
payload (migrate n) = []
payload (reset n) = []

abbrev pub payloads : List Frame → List ℕ
payloads [] = []
payloads (f ∷ fs) = payload f ++ payloads fs

abbrev pub credit : Frame → ℕ
credit (Frame.read n l) = l
credit (data_frame n p) = 0
credit (ping n p) = 0
credit (query q) = 0
credit (relay_query c t q) = 0
credit (response n e b) = 0
credit (migrate n) = 0
credit (reset n) = 0

abbrev pub owed : List Frame → ℕ
owed [] = 0
owed (f ∷ fs) = credit f + owed fs

payloads-append : (fs gs : List Frame) → payloads (fs ++ gs) ≡ payloads fs ++ payloads gs
payloads-append [] gs = refl
payloads-append (f ∷ fs) gs =
    rw (payloads-append fs gs, append_assoc (payload f) (payloads fs) (payloads gs))

owed-append : (fs gs : List Frame) → owed (fs ++ gs) ≡ owed fs + owed gs
owed-append [] gs = omega arith
owed-append (f ∷ fs) gs = omega (arith, owed-append fs gs)

send_all-payloads :
    (nonce : ℕ) (cs : List (List ℕ)) (w : List Frame)
    → payloads (send_all recording nonce cs w).0 ≡ payloads w ++ concat cs
send_all-payloads nonce [] w = sym (append-nil (payloads w))
send_all-payloads nonce (c ∷ cs) w =
    send_all-payloads nonce cs (w ++ (data_frame nonce c ∷ []))
    ∙ rw (
      payloads-append w (data_frame nonce c ∷ []),
      append-nil c,
      append_assoc (payloads w) c (concat cs),
    )

-- On a link that is up the write callback sends all it is given.
pub on_write-payloads :
    (nonce : ℕ) (p : List ℕ) (w : List Frame)
    → payloads (on_write recording nonce p w).0 ≡ payloads w ++ p
on_write-payloads nonce p w =
    let (cs, whole, fit, run) = on_write_chunks recording nonce p in
    rw (run w) (send_all-payloads nonce cs w ∙ ap (◌++◌ (payloads w)) whole)

send_all-fine :
    (nonce : ℕ) (cs : List (List ℕ)) (w : List Frame) → (send_all recording nonce cs w).1 ≡ true
send_all-fine nonce [] w = refl
send_all-fine nonce (c ∷ cs) w = send_all-fine nonce cs (w ++ (data_frame nonce c ∷ []))

pub on_write-fine :
    (nonce : ℕ) (p : List ℕ) (w : List Frame) → (on_write recording nonce p w).1 ≡ true
on_write-fine nonce p w =
    let (cs, whole, fit, run) = on_write_chunks recording nonce p in
    rw (run w) (send_all-fine nonce cs w)

record Inv (f : Flow) : Type 0 where
  pub valid : IsValid f.inp
  pub size : f.inp.size ≡ default_buffer_size
  pub crediting : f.inp.closed ≡ false → f.inp.on_read ≡ true
  pub within :
      f.out.wsize + length (payloads f.to_peer) + f.inp.used + owed f.to_sender
      ≤ default_buffer_size
  pub conserved :
      f.inp.closed ≡ false
      → f.out.wsize + length (payloads f.to_peer) + f.inp.used + owed f.to_sender
        ≡ default_buffer_size
  pub kept : f.inp.closed ≡ false → f.dropped ≡ []
  pub stream : f.written ≡ f.received ++ (contents f.inp ++ (f.dropped ++ payloads f.to_peer))
  pub fits : f.overflowed ≡ false

open_flow-Inv : Inv open_flow
unfolding open_flow Input.new Output.new Output.grow
open_flow-Inv = record {
  valid = new-IsValid default_buffer_size true;
  size = refl;
  crediting = λ e. refl;
  within = omega arith;
  conserved = λ e. refl;
  kept = λ e. refl;
  stream = refl;
  fits = refl;
}

write-Inv : (nonce : ℕ) (f : Flow) (p : List ℕ) → Inv f → Inv (move nonce f (writes p))
unfolding move Output.write
write-Inv nonce f p v =
    let n = min f.out.wsize (length p) in
    ground (
      arith,
      on_write-payloads nonce (take n p) f.to_peer,
      length-append (payloads f.to_peer) (take n p),
      length-take n p,
      append_assoc f.received (contents f.inp ++ (f.dropped ++ payloads f.to_peer)) (take n p),
      append_assoc (contents f.inp) (f.dropped ++ payloads f.to_peer) (take n p),
      append_assoc f.dropped (payloads f.to_peer) (take n p),
      append-nil f.written,
    )

read_front_effects :
    (xss : List (List ℕ)) (k : ℕ) (b : InputBuffer)
    → let (b', r) = Input.read_front xss k b in
      (b'.size ≡ b.size)
      × (b'.closed ≡ b.closed)
      × (b'.on_read ≡ b.on_read)
      × (((credit_of r ≡ none) × (data_of r ≡ []))
          ⊎ (credit_of r ≡ (if b.on_read then some (length (data_of r)) else none)))
unfolding Input.read_front
read_front_effects [] k b = ground arith
read_front_effects (chunk ∷ rest) k b = ground (arith, length-take (min k (length chunk)) chunk)

-- Read leaves the size, the flag and the callback alone, and reports the bytes that it handed out.
read_effects :
    (k : ℕ) (b : InputBuffer)
    → let (b', r) = Input.read k b in
      (b'.size ≡ b.size)
      × (b'.closed ≡ b.closed)
      × (b'.on_read ≡ b.on_read)
      × (((credit_of r ≡ none) × (data_of r ≡ []))
          ⊎ (credit_of r ≡ (if b.on_read then some (length (data_of r)) else none)))
unfolding Input.read
read_effects k b = read_front_effects b.buf k b

owed-give_back-some :
    (nonce n : ℕ) (w : List Frame) → n < 2 ^ 32 → owed (give_back nonce (some n) w) ≡ owed w + n
owed-give_back-some nonce n w small =
    unfold on_read in omega (arith, owed-append w (Frame.read nonce (n % 2 ^ 32) ∷ []))

read-Inv : (nonce : ℕ) (f : Flow) (k : ℕ) → Inv f → Inv (move nonce f (reads k))
unfolding move
read-Inv nonce f k v =
    let (b, r) = Input.read k f.inp in
    let d = data_of r in
    let v' = read-IsValid k f.inp v.valid in
    let more = f.dropped ++ payloads f.to_peer in
    ground (
      arith,
      v',
      read_effects k f.inp,
      contents-read k f.inp,
      length-append d (contents b),
      owed-give_back-some nonce (length d) f.to_sender,
      append_assoc f.received d (contents b ++ more),
      append_assoc d (contents b) more,
      append-nil f.received,
    )

deliver-Inv : (fs : List Frame) (f : Flow) → f.to_peer ≡ fs → Inv f → Inv (deliver fs f)
unfolding deliver
deliver-Inv [] f e v = v
deliver-Inv (data_frame n p ∷ rest) f e v =
    unfold Input.push in
    ground (
      arith,
      push-IsValid p f.inp v.valid,
      contents-push p f.inp,
      length-append p (payloads rest),
      append_assoc (contents f.inp) p (payloads rest),
      append_assoc f.dropped p (payloads rest),
      append-nil f.dropped,
      append-nil (contents f.inp),
    )
deliver-Inv (ping n p ∷ rest) f e v = ground arith
deliver-Inv (query q ∷ rest) f e v = ground arith
deliver-Inv (relay_query c t q ∷ rest) f e v = ground arith
deliver-Inv (Frame.read n l ∷ rest) f e v = ground arith
deliver-Inv (response n x b ∷ rest) f e v = ground arith
deliver-Inv (migrate n ∷ rest) f e v = ground arith
deliver-Inv (reset n ∷ rest) f e v = ground arith

grant-Inv : (fs : List Frame) (f : Flow) → f.to_sender ≡ fs → Inv f → Inv (grant fs f)
unfolding grant Output.grow
grant-Inv [] f e v = v
grant-Inv (data_frame n p ∷ rest) f e v = ground arith
grant-Inv (ping n p ∷ rest) f e v = ground arith
grant-Inv (query q ∷ rest) f e v = ground arith
grant-Inv (relay_query c t q ∷ rest) f e v = ground arith
grant-Inv (Frame.read n l ∷ rest) f e v = ground arith
grant-Inv (response n x b ∷ rest) f e v = ground arith
grant-Inv (migrate n ∷ rest) f e v = ground arith
grant-Inv (reset n ∷ rest) f e v = ground arith

reader_closes-Inv : (nonce : ℕ) (f : Flow) → Inv f → Inv (move nonce f reader_closes)
unfolding move Input.close
reader_closes-Inv nonce f v = ground (arith, close-IsValid f.inp v.valid, contents-close f.inp)

writer_closes-Inv : (nonce : ℕ) (f : Flow) → Inv f → Inv (move nonce f writer_closes)
unfolding move Output.close
writer_closes-Inv nonce f v = ground arith

move-Inv : (nonce : ℕ) (f : Flow) (m : Move) → Inv f → Inv (move nonce f m)
move-Inv nonce f (writes p) v = write-Inv nonce f p v
move-Inv nonce f (reads k) v = read-Inv nonce f k v
move-Inv nonce f data_arrives v = unfold move in deliver-Inv f.to_peer f refl v
move-Inv nonce f credit_arrives v = unfold move in grant-Inv f.to_sender f refl v
move-Inv nonce f reader_closes v = reader_closes-Inv nonce f v
move-Inv nonce f writer_closes v = writer_closes-Inv nonce f v

moves-Inv : (nonce : ℕ) (f : Flow) (ms : List Move) → Inv f → Inv (moves nonce f ms)
unfolding moves
moves-Inv nonce f [] v = v
moves-Inv nonce f (m ∷ ms) v = moves-Inv nonce (move nonce f m) ms (move-Inv nonce f m v)

-- Whatever writes, reads, deliveries and closes follow the opening of a session over a link that is
-- up, in any order: no Push is ever refused for lack of room, and until the receiver closes, the
-- sender's credit, the payload bytes on their way, the bytes stored by the receiver and the credit
-- on its way back add up to the buffer size.
pub flow_conserved :
    (nonce : ℕ) (ms : List Move)
    → let f = moves nonce open_flow ms in
      (f.overflowed ≡ false)
      × (f.inp.closed ≡ false
          → f.out.wsize + length (payloads f.to_peer) + f.inp.used + owed f.to_sender
            ≡ default_buffer_size)
flow_conserved nonce ms =
    let v = moves-Inv nonce open_flow ms open_flow-Inv in (v.fits, v.conserved)

-- In every such history the bytes that Write took are, in order, the bytes that Read handed out, the
-- bytes that the receiver stores, the bytes that came after it closed, and those on their way; while
-- it is open none are dropped, so what is read is a prefix of what was written.
pub flow_stream :
    (nonce : ℕ) (ms : List Move)
    → let f = moves nonce open_flow ms in
      (f.written ≡ f.received ++ (contents f.inp ++ (f.dropped ++ payloads f.to_peer)))
      × (f.inp.closed ≡ false → f.dropped ≡ [])
flow_stream nonce ms = let v = moves-Inv nonce open_flow ms open_flow-Inv in (v.stream, v.kept)
