-- ===== src/Providers.antt =====
-- gateway/providers: the vendor adapters and their registry. A vendor SDK is a parameter: what its
-- client does with a request is a function of the state, and its exceptions are the classes that
-- the adapters name, each with the name of its type and its text.
pub mod Sdk
pub mod Openai
pub mod Anthropic
pub mod Google
pub mod Mock
pub mod Registry
mod Status
mod Conversation
mod Tests
