-- ===== src/Contracts/Constants.antt =====
-- packages/contracts/src/constants.ts: the limits of the protocol that the models use.
use palancar.Base.{ℕ}

abbrev pub protocol_version : ℕ
protocol_version = 1

abbrev pub binary_magic : ℕ
binary_magic = 0x5041

abbrev pub audio_header_bytes : ℕ
audio_header_bytes = 30

abbrev pub max_audio_payload_bytes : ℕ
max_audio_payload_bytes = 3_200

abbrev pub max_binary_message_bytes : ℕ
max_binary_message_bytes = 3_230

abbrev pub max_unacknowledged_samples : ℕ
max_unacknowledged_samples = 8_000

abbrev pub max_utterance_samples : ℕ
max_utterance_samples = 480_000
