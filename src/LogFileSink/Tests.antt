-- ===== src/LogFileSink/Tests.antt =====
-- The law of eviction at a sink with two open files.
use fix_engine.Prelude.{◌≡◌, refl, true, false, [], ◌∷◌, Bytes, some, arith}
use fix_engine.Chars.{codes}
use fix_engine.Definitions.{SessionId, same_session}
use fix_engine.LogFileSink.{LogFileSink, SinkNode, find_node, evict_one}
use fix_engine.LogFileSink.Eviction.{Absent, evict_one-other}

abbrev first : SessionId
first = record { storage_index = 0; id = 0 }

abbrev second : SessionId
second = record { storage_index = 1; id = 1 }

abbrev written_node : Bytes → SinkNode
written_node path = record {
  path = path;
  is_open = true;
  written = codes "[\n";
  lru_iterator = 0;
  in_lru = true;
  first_write = false;
}

-- The second session was written last.
abbrev two_open : LogFileSink
two_open = record {
  lru_cache = (1, second) ∷ (0, first) ∷ [];
  cells = 2;
  sess_to_file =
      (first, written_node (codes "a"))
      ∷ (second, record (written_node (codes "b")) { lru_iterator = 1 })
      ∷ [];
  core_is_open = true;
  core_log = [];
  std_err = [];
  currently_open_files = 2;
}

evict_one-other_example :
    (t : LogFileSink) × ((evict_one (λ path. true) 3 two_open ≡ some t)
      × ((t.lru_cache ≡ (0, first) ∷ [])
          × ((m : SinkNode) × ((find_node t.sess_to_file first ≡ some m)
                × ((m.is_open ≡ false) × (m.in_lru ≡ false))))))
unfolding find_node same_session Absent
evict_one-other_example =
    evict_one-other (λ path. true) two_open [] (1, second) 0 first (written_node (codes "a"))
      (record { same_list = refl; node = refl }) (omega arith, tt)
      (record { opened = refl; listed = refl; place = refl; begun = refl }) (omega arith) 0
