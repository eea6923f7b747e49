-- ===== src/Query/Files.antt =====
-- The files of a query, as the raw store gives them
-- (src/comfyui_docker_helper/container/runtime/logging.py and log_storage.py).
use comfyui_docker_helper.Prelude.{ℕ, All-imp, arith, inl, inr}
use comfyui_docker_helper.Storage.{FileSpan, RawLogStore, Check}
use comfyui_docker_helper.Storage.Retained.{read_store}
use comfyui_docker_helper.Storage.Reading.{Same, Remembered, read_store-FileRight}
use comfyui_docker_helper.Query.{cut_front}
use comfyui_docker_helper.Query.Readers.{Readable}

cut_Same : (at : ℕ) (span current : FileSpan) → Same span current → Same (cut_front at span) current
cut_Same at span current same e = elim (same e) [
  | inl here ↦ inl (omega arith)
  | inr behind ↦ inr behind
]

cut_Remembered :
    (f : ℕ → ℕ) (at : ℕ) (span : FileSpan) (s : RawLogStore)
    → Remembered f span s
    → Remembered f (cut_front at span) s
cut_Remembered f at span s r = record {
  valid = r.valid;
  kept = record {
    reached = r.kept.reached;
    all =
        All-imp (Same span) (Same (cut_front at span)) s.spans
          (λ current h. cut_Same at span current h) r.kept.all;
  };
}

-- A span of a snapshot is readable for a query, at whatever later states the attempts find the store.
pub Remembered-Readable :
    (f : ℕ → ℕ) (first second : Check) (span : FileSpan) (s s' : RawLogStore)
    → Remembered f span s
    → Remembered f span s'
    → Readable f (λ sp start size. read_store first second sp start size s s') span
Remembered-Readable f first second span s s' r r' = record {
  whole = λ start size. read_store-FileRight f first second span start size s s' r r';
  cut = λ at start size.
      read_store-FileRight f first second (cut_front at span) start size s s'
        (cut_Remembered f at span s r) (cut_Remembered f at span s' r');
}
