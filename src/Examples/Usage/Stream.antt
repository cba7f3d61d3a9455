-- ===== src/Examples/Usage/Stream.antt =====
-- A streamed response of a Codex provider, in two chunks: one event, of nine input tokens.
use hsin_rs.Prelude.{◌≤◌, true, false, none, List, [], ◌∷◌, ◌++◌, length, codes, ◌≡◌, refl, arith}
use hsin_rs.Core.Enums.{codex}
use hsin_rs.Ipc.Protocol.{Bytes}
use hsin_rs.Usage.Tokens.{no_tokens}
use hsin_rs.Usage.Observer.{Observer, sse_boundary, consume_sse_events, feed, finish}
use hsin_rs.Usage.Observer.Bounds.{
  IsSound, feed_all, feed_all-IsSound, finish-feed_all, consume_sse_events-ends,
}
use hsin_rs.Usage.Observer.Cut.{IsOpen, concat, finish-concat}
use hsin_rs.Examples.Usage.{sample_json}

abbrev watching : Observer sample_json
watching = record {
  provider_id = codes "p1";
  provider_name = codes "Provider";
  provider_revision = 3;
  client = codex;
  event_at = 100;
  is_sse = true;
  buffer = [];
  exceeded = false;
  recorded = false;
  claude_id = none;
  claude_model = none;
  fallback_model = none;
  claude_tokens = no_tokens;
  submitted = [];
}

abbrev first_chunk : Bytes
first_chunk = b'd' ∷ b'a' ∷ b't' ∷ []

abbrev other_chunks : List Bytes
other_chunks = (b'a' ∷ b':' ∷ 9 ∷ b'\n' ∷ []) ∷ (b'\n' ∷ []) ∷ []

consume_sse_events-ends_example :
    sse_boundary
      (consume_sse_events sample_json
        (record watching { buffer = first_chunk ++ concat other_chunks })).buffer
    ≡ none
consume_sse_events-ends_example =
    consume_sse_events-ends sample_json
      (record watching { buffer = first_chunk ++ concat other_chunks })

sound : IsSound sample_json watching
sound = record { bounded = omega arith; once = refl }

feed_all-IsSound_example :
    IsSound sample_json (feed_all sample_json (first_chunk ∷ other_chunks) watching)
feed_all-IsSound_example = feed_all-IsSound sample_json (first_chunk ∷ other_chunks) watching sound

finish-feed_all_example :
    length
      (finish sample_json (feed_all sample_json (first_chunk ∷ other_chunks) watching)).submitted
    ≤ 1
finish-feed_all_example = finish-feed_all sample_json (first_chunk ∷ other_chunks) watching sound

unwatched : IsOpen sample_json watching
unwatched = record { sse = refl; within = refl; waits = refl }

finish-concat_example :
    (finish sample_json (feed_all sample_json (first_chunk ∷ other_chunks) watching)).submitted
    ≡ (finish sample_json
        (feed sample_json (first_chunk ++ concat other_chunks) watching)).submitted
finish-concat_example =
    finish-concat sample_json first_chunk other_chunks watching unwatched
      (refl, (refl, (refl, (refl, (refl, (refl, (refl, (refl, tt)))))))) (omega arith)
