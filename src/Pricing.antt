-- ===== src/Pricing.antt =====
-- gateway/pricing.py: the table of prices by provider and model, whose keys are written as
-- candidates. The JSON file is parsed by a library; `Info` is an object of it, with numbers for the
-- prices.
pub mod Cost
pub mod Index
mod Tests
use librouter.Prelude.{
  ℕ, String, Bool, true, false, not, Option, none, some, List, [], ◌∷◌, ◌++◌, contains, string_eq,
  ◌==◌, if◌then◌else◌,
}
use librouter.Prelude.Dict.{Dict, get, put, setdefault}
use librouter.Prelude.Float.{Float, ◌⊕◌, ◌⊗◌, of_nat, nought}
use librouter.Models.{CandidateRef, candidate_eq}

pub record Entry (W : Type 0) : Type 0 where
  pub input_cost_per_token : W
  pub output_cost_per_token : W
  pub max_input_tokens : Option ℕ

-- The field `max_input_tokens` of the file: absent, a string, or a number.
pub data MaxInput : Type 0 where
  absent text : MaxInput
  tokens : ℕ → MaxInput

pub record Info (W : Type 0) : Type 0 where
  -- The empty string if absent.
  pub litellm_provider : String
  pub input_cost_per_token : Option W
  pub output_cost_per_token : Option W
  pub max_input_tokens : MaxInput

-- The values of the file: an object or something else.
pub data Row (W : Type 0) : Type 0 where
  object : Info W → Row W
  other : Row W

pub record PricingTable (W : Type 0) : Type 0 where
  pub index : Dict CandidateRef (Entry W)
  pub warned : List CandidateRef

abbrev pub provider_litellm_map : Dict String (List String)
provider_litellm_map =
    ("openai", "openai" ∷ [])
    ∷ ("anthropic", "anthropic" ∷ [])
    ∷ ("google", "vertex_ai-language-models" ∷ "vertex_ai" ∷ [])
    ∷ []

-- The two loops that turn the map around; the first provider of a value wins.
unfoldable pub reverse_providers : String → List String → Dict String String → Dict String String
reverse_providers ours [] d = d
reverse_providers ours (lp ∷ lps) d = reverse_providers ours lps (setdefault lp ours d)

unfoldable pub reverse_map : Dict String (List String) → Dict String String → Dict String String
unfolding reverse_providers
reverse_map [] d = d
reverse_map ((ours, lps) ∷ rest) d = reverse_map rest (reverse_providers ours lps d)

unfoldable pub litellm_to_ours : Dict String String
unfolding reverse_map
litellm_to_ours = reverse_map provider_litellm_map []

unfoldable pub max_input_of : MaxInput → Option ℕ
max_input_of (MaxInput.tokens n) = some n
max_input_of _ = none

module _ {W : Type 0} where
  -- One object of the file: its provider and entry, or `none` where the loop goes on.
  unfoldable pub priced : Info W → Option (String × Entry W)
  unfolding litellm_to_ours max_input_of get
  priced info = elim (get litellm_to_ours info.litellm_provider) [
    | none ↦ none
    | some ours ↦ elim info.input_cost_per_token [
      | none ↦ none
      | some input ↦ elim info.output_cost_per_token [
        | none ↦ none
        | some output ↦ some (
          ours,
          record {
            input_cost_per_token = input;
            output_cost_per_token = output;
            max_input_tokens = max_input_of info.max_input_tokens;
          },
        )
      ]
    ]
  ]

  abbrev pub add_row : String → Row W → Dict CandidateRef (Entry W) → Dict CandidateRef (Entry W)
  add_row model_key Row.other index = index
  add_row model_key (Row.object info) index =
      if model_key == "sample_spec" then index else elim (priced info) [
        | none ↦ index
        | some (ours, entry) ↦ put (record { provider = ours; model = model_key }) entry index
      ]

  -- The loop of `_build_index`.
  unfoldable pub add_rows :
      Dict String (Row W) → Dict CandidateRef (Entry W) → Dict CandidateRef (Entry W)
  unfolding priced
  add_rows [] index = index
  add_rows ((model_key, row) ∷ rows) index = add_rows rows (add_row model_key row index)

  unfoldable pub build_index : Dict String (Row W) → Dict CandidateRef (Entry W)
  unfolding add_rows
  build_index raw = add_rows raw []

  unfoldable pub context_window : PricingTable W → CandidateRef → Option ℕ
  context_window table key = elim (get table.index key) [
    | none ↦ none
    | some entry ↦ entry.max_input_tokens
  ]

module _ {W : Type 0} ⦃d : Float W⦄ where
  -- The cost, whether a warning is logged, and the table after the call.
  unfoldable pub cost_usd : CandidateRef → ℕ → ℕ → PricingTable W → W × Bool × PricingTable W
  cost_usd key input_tokens output_tokens table = elim (get table.index key) [
    | none ↦
        if contains table.warned key
        then (nought, false, table)
        else (nought, true, record table { warned = table.warned ++ (key ∷ []) })
    | some entry ↦ (
      of_nat input_tokens ⊗ entry.input_cost_per_token
          ⊕ of_nat output_tokens ⊗ entry.output_cost_per_token,
      false,
      table,
    )
  ]
