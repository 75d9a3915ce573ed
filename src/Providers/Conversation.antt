-- ===== src/Providers/Conversation.antt =====
-- The two adapters that take the system text out of the conversation.
use librouter.Prelude.{◌≡◌, refl, List, [], ◌∷◌, map, arith}
use librouter.Models.{Message}
use librouter.Providers.Anthropic.{split_parts, split_system}
use librouter.Providers.Google.{Content, role_of, convert_parts, convert_messages}

abbrev pub content_of : Message → Content
content_of m = record { role = role_of m.role; text = m.content }

convert_parts-split_parts :
    (ms : List Message)
    → convert_parts ms ≡ ((split_parts ms).0, map content_of ((split_parts ms).1))
unfolding convert_parts split_parts
convert_parts-split_parts [] = refl
convert_parts-split_parts (m ∷ ms) = ground (arith, convert_parts-split_parts ms)

-- The Google adapter and the Anthropic adapter read a conversation alike: they take the same system
-- text out of it, and the contents that Google gets are the messages that Anthropic gets, in order.
pub convert_messages-split_system :
    (ms : List Message)
    → convert_messages ms ≡ ((split_system ms).0, map content_of ((split_system ms).1))
unfolding convert_messages split_system
convert_messages-split_system ms = rw (convert_parts-split_parts)
