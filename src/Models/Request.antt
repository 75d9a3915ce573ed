-- ===== src/Models/Request.antt =====
-- gateway/models.py: what pydantic checks of a `ChatCompletionRequest` before a handler sees it,
-- the `Field` bounds and the three validators. A refused request is answered with status 422.
use Prim.Native.String.{count}
use librouter.Prelude.{
  ℕ, ◌+◌, ◌≤◌, ◌<◌, ◌≡◌, String, Bool, true, not, ◌&&◌, Option, none, some, List, [], ◌∷◌, arith,
  ltb, leb, length,
}
use librouter.Prelude.Dict.{Dict}
use librouter.Prelude.Float.{Float, nought}
use librouter.Models.{Message, ChatCompletionRequest}

-- `sum(len(m.content) for m in messages)`
unfoldable pub prompt_chars : List Message → ℕ
prompt_chars [] = 0
prompt_chars (m ∷ ms) = count m.content + prompt_chars ms

-- `Field(max_length=200_000)` of each message.
contents_ok : List Message → Bool
contents_ok [] = true
contents_ok (m ∷ ms) = leb (count m.content) 200_000 && contents_ok ms

entries_ok : Dict String String → Bool
entries_ok [] = true
entries_ok ((key, value) ∷ d) = leb (count key) 64 && (leb (count value) 256 && entries_ok d)

-- `_validate_metadata_bounds`
metadata_ok : Option (Dict String String) → Bool
unfolding entries_ok
metadata_ok none = true
metadata_ok (some v) = leb (length v) 16 && entries_ok v

module _ {W : Type 0} ⦃d : Float W⦄ where
  -- `Field(ge=0.0, le=top)` of an optional float.
  in_range : W → Option W → Bool
  in_range top none = true
  in_range top (some x) = d.le nought x && d.le x top

  unfoldable pub is_accepted : ChatCompletionRequest W → Bool
  unfolding in_range contents_ok metadata_ok
  is_accepted r =
      leb 1 (length r.messages)
      && (leb (length r.messages) 512
          && (contents_ok r.messages
              && (ltb 0 r.max_tokens
                  && (leb r.max_tokens 16384
                      && (in_range (d.literal 20 1) r.temperature
                          && (in_range (d.literal 10 1) r.top_p
                              && (not r.stream
                                  && (metadata_ok r.metadata
                                      && ltb (prompt_chars r.messages) 1_000_000))))))))

  -- An accepted request has a text of fewer than a million characters and asks for 1 to 16384
  -- tokens.
  pub is_accepted_bounds :
      (r : ChatCompletionRequest W)
      → is_accepted r ≡ true
      → (prompt_chars r.messages < 1_000_000) × (0 < r.max_tokens) × (r.max_tokens ≤ 16384)
  unfolding is_accepted
  is_accepted_bounds r h = ground arith
