-- ===== src/Operations/Tests.antt =====
-- Runs of the model of the operations on torrents, and the theorems about it at concrete inputs.
use orc_torrent.Prelude.{◌+◌, ◌≡◌, refl, true, false, none, [], ◌∷◌, if◌then◌else◌}
use orc_torrent.Prelude.Assoc.{string_eq, lookup, insert, delete}
use orc_torrent.Operations.{
  start, stop, Hook, calls, settles, op_id, run, begin_batch, settle_request,
}
use orc_torrent.Operations.Batches.{all_ok, settlements, partial_failure}

abbrev idle : Hook
idle = record {
  loading = [];
  batches = [];
  next = 0;
  requests = [];
  successes = 0;
  errors = 0;
  refreshes = 0;
}

-- Two torrents are started, one of them is not: no refresh.
partial_failure_example :
    ((run
        (calls true true start ("a" ∷ "b" ∷ []) ∷ settlements 0 (true ∷ false ∷ []))
        idle).refreshes
      ≡ 0 + (if all_ok (true ∷ false ∷ []) then 1 else 0))
    × ((run
          (calls true true start ("a" ∷ "b" ∷ []) ∷ settlements 0 (true ∷ false ∷ []))
          idle).errors
        ≡ 0 + (if all_ok (true ∷ false ∷ []) then 0 else 1))
    × (lookup
          (op_id start)
          (run
            (calls true true start ("a" ∷ "b" ∷ []) ∷ settlements 0 (true ∷ false ∷ []))
            idle).loading
        ≡ none)
partial_failure_example = partial_failure start "a" ("b" ∷ []) true (false ∷ []) idle refl

-- Of two runs of the same operation, the end of the first lowers the flag while the second still runs.
flag_lowered_early :
    (run
      (calls true true stop ("a" ∷ []) ∷ calls true true stop ("b" ∷ []) ∷ settles 0 true ∷ [])
      idle).loading
    ≡ []
unfolding run begin_batch settle_request lookup insert delete
flag_lowered_early = refl
