-- ===== src/Queue/Enqueue/Reserve.antt =====
-- The reservation loop of `try_enqueue` in src/queue.rs.
use swap_buffer_queue.Prelude.{
  ℕ, zero, suc, ◌-◌, ◌^◌, ◌≤◌, ◌<◌, ◌≡◌, true, false, leb, if◌then◌else◌, arith,
}
use swap_buffer_queue.Prelude.Run.{Cmd, done}
use swap_buffer_queue.Error.{Result, ok, err, TryEnqueueError, insufficient_capacity, closed}
use swap_buffer_queue.Word.Enqueuing.Laws as Enqueuing
use swap_buffer_queue.Buffer.{InsertIntoBuffer}
use swap_buffer_queue.Queue.{Queue}
use swap_buffer_queue.Queue.Enqueue.{checked, exchanged, reserve}

module _ {B N V : Type 0} (ins : InsertIntoBuffer B V) (q : Queue B N) (index remaining : ℕ)
    (fits : Enqueuing.Fits index remaining) where
  pub reserve-closed :
      (spurious : ℕ) (v : V)
      → q.enqueuing_capacity ≡ Enqueuing.word_of index remaining true
      → reserve ins spurious v q ≡ done (err (closed v)) q
  unfolding reserve
  reserve-closed zero v word = rw (word, Enqueuing.is_closed-word_of index remaining true fits)
  reserve-closed (suc spurious) v word =
      rw (word, Enqueuing.is_closed-word_of index remaining true fits)

  module _ (v : V) (size_small : ins.size v < 2 ^ 63)
      (word : q.enqueuing_capacity ≡ Enqueuing.word_of index remaining false) where
    checked-open :
        (exchange : ℕ → Cmd (Queue B N) (Result ℕ (TryEnqueueError V)))
        → checked ins v exchange q ≡ (
            if leb (ins.size v) remaining
            then exchange (Enqueuing.word_of index (remaining - ins.size v) false) q
            else done (err (insufficient_capacity v)) q)
    unfolding checked
    checked-open exchange = ground (
      arith,
      Enqueuing.is_closed-word_of index remaining false fits,
      Enqueuing.try_reserve-word_of index remaining false fits (ins.size v) size_small,
    )

    pub reserve-no_room :
        (spurious : ℕ)
        → remaining < ins.size v
        → reserve ins spurious v q ≡ done (err (insufficient_capacity v)) q
    unfolding reserve
    reserve-no_room zero more = ground (arith, checked-open exchanged)
    reserve-no_room (suc spurious) more = ground (arith, checked-open (λ _. reserve ins spurious v))

    pub reserve-room :
        (spurious : ℕ)
        → ins.size v ≤ remaining
        → reserve ins spurious v q
          ≡ done (ok q.enqueuing_capacity) (record q {
            enqueuing_capacity = Enqueuing.word_of index (remaining - ins.size v) false;
          })
    unfolding reserve
    reserve-room zero fewer = ground (arith, checked-open exchanged)
    reserve-room (suc spurious) fewer =
        ground (arith, checked-open (λ _. reserve ins spurious v), reserve-room spurious fewer)
