-- ===== src/MpscRing/Threads.antt =====
-- include/fix/log/MpscRing.hpp: the threads at the ring, one access at a time.
use fix_engine.Prelude.{ℕ, ◌≡◌, true, false, List, [], ◌∷◌, ◌++◌, update}
use fix_engine.MpscRing.{
  MpscRing, new_ring, draw_ticket, is_turn, put, publish, may_pop, taken, give_back,
}

-- How far the thread with a ticket is. `failed` is a `try_push` that found it was not its turn.
pub data Phase : Type 0 where
  absent : Phase
  waiting : Phase
  writing : Phase
  written : Phase
  published : Phase
  failed : Phase

-- How far the thread that pops is.
pub data Consumer : Type 0 where
  idle : Consumer
  reading : Consumer
  releasing : Consumer

pub record Threads (Data : Type 0) : Type 0 where
  pub ring : MpscRing Data
  pub phase : ℕ → Phase
  pub consumer : Consumer
  pub popped : List Data

abbrev pub set_phase : {Data : Type 0} → Threads Data → ℕ → Phase → Threads Data
set_phase s ticket p = record s { phase = update s.phase ticket p }

-- What the thread that draws a ticket pushes. `push` waits until it is its turn; `try_push` gives up.
module _ {Data : Type 0} (data_of : ℕ → Data) where
  pub data Step (s : Threads Data) : Threads Data → Type 0 where
    draws :
        Step s
          (set_phase (record s { ring = (draw_ticket s.ring).0 }) (draw_ticket s.ring).1 waiting)
    goes_on :
        (ticket : ℕ)
        → s.phase ticket ≡ waiting
        → is_turn s.ring ticket ≡ true
        → Step s (set_phase s ticket writing)
    gives_up :
        (ticket : ℕ)
        → s.phase ticket ≡ waiting
        → is_turn s.ring ticket ≡ false
        → Step s (set_phase s ticket failed)
    puts :
        (ticket : ℕ)
        → s.phase ticket ≡ writing
        → Step s (set_phase (record s { ring = put s.ring ticket (data_of ticket) }) ticket written)
    publishes :
        (ticket : ℕ)
        → s.phase ticket ≡ written
        → Step s (set_phase (record s { ring = publish s.ring ticket }) ticket published)
    pops : s.consumer ≡ idle → may_pop s.ring ≡ true → Step s (record s { consumer = reading })
    takes :
        s.consumer ≡ reading
        → Step s (record s { consumer = releasing; popped = s.popped ++ taken s.ring ∷ [] })
    gives_back :
        s.consumer ≡ releasing → Step s (record s { consumer = idle; ring = give_back s.ring })

  pub data Steps (s : Threads Data) : Threads Data → Type 0 where
    stays : Steps s s
    later : {t u : Threads Data} → Steps s t → Step t u → Steps s u

abbrev pub start : {Data : Type 0} → Data → Threads Data
start nothing = record {
  ring = new_ring nothing;
  phase = λ ticket. absent;
  consumer = idle;
  popped = [];
}
