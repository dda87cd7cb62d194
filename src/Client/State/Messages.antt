-- ===== src/Client/State/Messages.antt =====
-- apps/g2-client/src/state/index.ts: the texts that a state shows.
use palancar.Base.{none, some, ◌++◌, Text, codes}
use palancar.Languages.{get_language_definition}

abbrev pub startup_failed_message : Text
startup_failed_message = codes "Startup failed."

abbrev pub fatal_message : Text
fatal_message = codes "The client encountered an unrecoverable error."

abbrev pub shutdown_message : Text
shutdown_message = codes "Shutting down."

abbrev pub transport_lost_message : Text
transport_lost_message = codes "Connection lost; starting a fresh session."

abbrev pub recovery_failed_message : Text
recovery_failed_message = codes "Fresh-session recovery failed."

abbrev pub recovery_invalid_message : Text
recovery_invalid_message = codes "Fresh-session recovery returned an invalid session."

abbrev pub utterance_aborted_message : Text
utterance_aborted_message = codes "The utterance was aborted; ready for a new turn."

abbrev pub malformed_results_message : Text
malformed_results_message = codes "Response results were invalid; ready for a new turn."

abbrev pub transcript_overflow_message : Text
transcript_overflow_message =
    codes "The transcript exceeded the safe display limit; ready for a new turn."

abbrev pub session_mismatch_message : Text
session_mismatch_message = codes "The session target did not match the confirmed target."

abbrev pub auth_unavailable_message : Text
auth_unavailable_message = codes "Session authentication unavailable; press to retry."

pub data LanguageDecisionValue : Type 0 where
  target mixed english supported_unselected unsupported uncertain : LanguageDecisionValue

display_name : Text → Text
display_name code = elim (get_language_definition code) [
  | none ↦ codes "the selected language"
  | some d ↦ d.display_name
]

unfoldable pub decision_message : LanguageDecisionValue → Text → Text
unfolding display_name
decision_message english code = codes "English detected; speak in the selected target language."
decision_message mixed code = codes "Mixed-language speech was not accepted."
decision_message supported_unselected code = codes "A different supported language was detected."
decision_message unsupported code = codes "The detected language is not supported."
decision_message uncertain code =
    codes "The language was unclear; speak in " ++ display_name code ++ codes "."
decision_message target code = codes ""
