-- ===== src/Protocol/Codec.antt =====
-- What the program relies on from the two encoders that it does not implement, serde_json (texts)
-- and prost (bytes): what was encoded decodes to itself. A decoder may refuse anything else, with
-- an error text.
use ruchat.Prelude.{ℕ, String, ◌≡◌, List, []}
use ruchat.Prelude.Result.{Result, ok}
use ruchat.Protocol.Domain.{CommandDescriptor, ExecutionResult}
use ruchat.Protocol.Wire.{PbMqttFrame, PbNodePayloadEnvelope}

pub record Codec (W A : Type 0) : Type 0 where
  pub encode : A → W
  pub decode : W → Result String A
  pub decode-encode : (a : A) → decode (encode a) ≡ ok a

-- serde_json, at the types of the three JSON columns. `register_node` writes the text "[]" itself.
pub record Json : Type 0 where
  pub args : Codec String (List String)
  pub commands : Codec String (List CommandDescriptor)
  pub result : Codec String ExecutionResult
  pub commands_empty : commands.decode "[]" ≡ ok []

-- prost, at the two messages that cross the socket (codec.rs).
pub record Prost : Type 0 where
  pub frame : Codec (List ℕ) PbMqttFrame
  pub payload : Codec (List ℕ) PbNodePayloadEnvelope
