-- ===== src/Domain/Decide/Identity.antt =====
-- The identity of an action (commandFor of internal/domain/decide.go) is never the empty text.
use agent_dock_coedx5_6sol.Prelude.{
  ℕ, ◌≡◌, ◌==◌, String, string_eq, false, List, [], ◌∷◌, arith, length, hex, hex-named,
}
use agent_dock_coedx5_6sol.Domain.Types.{Run, CommandType}
use agent_dock_coedx5_6sol.Domain.Decide.{Sha256, first_bytes, action_id_of}

first_bytes_named : (bs : List ℕ) → length bs ≡ 32 → (hex (first_bytes 16 bs) == "") ≡ false
unfolding first_bytes
first_bytes_named [] h = absurd (omega (arith, h))
first_bytes_named (b ∷ bs) h = hex-named b (first_bytes 15 bs)

pub action_id-named :
    (sha : Sha256) (run : Run) (kind : CommandType) (attempt_id : String)
    → (action_id_of sha run kind attempt_id == "") ≡ false
unfolding action_id_of
action_id-named sha run kind attempt_id = first_bytes_named (sha.sum256 _) (sha.length-sum256 _)
