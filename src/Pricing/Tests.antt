-- ===== src/Pricing/Tests.antt =====
-- Instances of the theorems on gateway/pricing.py, at floats of whole thousandths.
use librouter.Prelude.{◌≡◌, refl, String, some, [], ◌∷◌, All, arith}
use librouter.Prelude.Dict.{Dict, get, put, setdefault}
use librouter.Prelude.Float.{Milli, milli_float, Milli-IsOrdered, ◌≼◌}
use librouter.Models.{CandidateRef, candidate_eq}
use librouter.Pricing.{
  Info, MaxInput, Row, object, other, PricingTable, reverse_providers, reverse_map, litellm_to_ours,
  max_input_of, priced, add_rows, build_index, context_window, cost_usd,
}
use librouter.Pricing.Cost.{cost_usd_mono}
use librouter.Pricing.Index.{IsPriced, build_index-IsPriced}

program : Unit {0}
unfolding get put setdefault reverse_providers reverse_map litellm_to_ours max_input_of priced
    add_rows build_index context_window cost_usd
program = tt

abbrev info : String → Info Milli
info litellm_provider = record {
  litellm_provider = litellm_provider;
  input_cost_per_token = some 2;
  output_cost_per_token = some 6;
  max_input_tokens = MaxInput.tokens 8000;
}

abbrev raw : Dict String (Row Milli)
raw =
    ("sample_spec", object (info "openai"))
    ∷ ("gemini", object (info "vertex_ai"))
    ∷ ("other", object (info "cohere"))
    ∷ ("note", other)
    ∷ []

abbrev gemini : CandidateRef
gemini = record { provider = "google"; model = "gemini" }

abbrev table : PricingTable Milli
table = record { index = build_index raw; warned = [] }

cost_usd_runs : (cost_usd gemini 100 10 table).0 ≡ 260
unfolding program
cost_usd_runs = refl

context_window_runs : context_window table gemini ≡ some 8000
unfolding program
context_window_runs = refl

cost_usd_mono_example : (cost_usd gemini 100 10 table).0 ≼ (cost_usd gemini 200 10 table).0
unfolding program
cost_usd_mono_example =
    cost_usd_mono gemini table Milli-IsOrdered 100 200 10 10 (refl, refl) (omega arith)
      (omega arith)

abbrev gpt : CandidateRef
gpt = record { provider = "openai"; model = "gpt" }

build_index-IsPriced_example : All (λ e. IsPriced raw e.0 e.1) (build_index raw)
build_index-IsPriced_example = build_index-IsPriced raw
