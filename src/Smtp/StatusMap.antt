-- ===== src/Smtp/StatusMap.antt =====
-- `bounceStatusMap` of email/smtpemail/bouncespy.go.
use blocky_cloud.Prelude.{ℕ, Bool, true, false, List, [], ◌∷◌}
use blocky_cloud.Smtp.Codes.{
  Code, service_not_available, mail_action_not_taken, action_aborted_error_processing,
  action_aborted_insufficient_storage, cmd_syntax_error, arguments_syntax_error,
  cmd_not_implemented, bad_cmd_sequence, cmd_param_not_implemented, mailbox_unavailable,
  recipient_not_local, action_aborted_exceeded_storage_alloc, mailbox_name_invalid,
  transaction_failed, address_doesnt_exist, other_address_error, bad_destination_mailbox_address,
  bad_destination_system_address, bad_destination_mailbox_address_syntax,
  destination_mailbox_ambiguous, destination_mailbox_address_invalid, mailbox_moved,
  bad_sender_mailbox_address_syntax, bad_sender_system_address, undefined_mailbox_error,
  mailbox_disabled, mailbox_full, message_len_exceeds_limit, mailing_list_expansion_problem,
  undefined_mail_system_status, mail_system_full, system_not_accepting_network_messages,
  system_not_capable_of_features, message_too_big_for_system, undefined_network_status,
  no_answer_from_host, bad_connection, routing_server_failure, unable_to_route, network_congestion,
  routing_loop_detected, delivery_time_expired, undefined_protocol_status, invalid_command,
  syntax_error, too_many_recipients, invalid_command_arguments, wrong_protocol_version,
  undefined_media_error, media_not_supported, conversion_required_and_prohibited,
  conversion_required_but_not_supported, conversion_with_loss_performed, conversion_failed,
  undefined_security_status, message_refused, mailing_list_expansion_prohibited,
  security_conversion_required_but_not_possible, security_features_not_supported, crypto_failure,
  crypto_algorithm_not_supported, message_integrity_failure, undefined_code,
}

-- `bounceType`; 0 is the zero value of a reason that is not in the map.
abbrev pub hard_bounce : ℕ
hard_bounce = 1

abbrev pub soft_bounce : ℕ
soft_bounce = 2

-- A value of the map: `Type` and `Specific`.
pub record StatusInfo : Type 0 where
  pub type_ : ℕ
  pub specific : Bool

abbrev hard : Bool → StatusInfo
hard b = record { type_ = hard_bounce; specific = b }

abbrev soft : Bool → StatusInfo
soft b = record { type_ = soft_bounce; specific = b }

abbrev pub status_info : Code → StatusInfo
status_info service_not_available = soft false
status_info mail_action_not_taken = soft false
status_info action_aborted_error_processing = soft false
status_info action_aborted_insufficient_storage = soft false
status_info cmd_syntax_error = hard false
status_info arguments_syntax_error = hard false
status_info cmd_not_implemented = hard false
status_info bad_cmd_sequence = hard false
status_info cmd_param_not_implemented = hard false
status_info mailbox_unavailable = hard false
status_info recipient_not_local = hard false
status_info action_aborted_exceeded_storage_alloc = hard false
status_info mailbox_name_invalid = hard false
status_info transaction_failed = hard false
status_info address_doesnt_exist = hard true
status_info other_address_error = hard true
status_info bad_destination_mailbox_address = hard true
status_info bad_destination_system_address = hard true
status_info bad_destination_mailbox_address_syntax = hard true
status_info destination_mailbox_ambiguous = hard true
status_info destination_mailbox_address_invalid = hard true
status_info mailbox_moved = hard true
status_info bad_sender_mailbox_address_syntax = hard true
status_info bad_sender_system_address = hard true
status_info undefined_mailbox_error = soft true
status_info mailbox_disabled = soft true
status_info mailbox_full = soft true
status_info message_len_exceeds_limit = hard true
status_info mailing_list_expansion_problem = hard true
status_info undefined_mail_system_status = hard true
status_info mail_system_full = soft true
status_info system_not_accepting_network_messages = hard true
status_info system_not_capable_of_features = hard true
status_info message_too_big_for_system = hard true
status_info undefined_network_status = hard true
status_info no_answer_from_host = hard true
status_info bad_connection = hard true
status_info routing_server_failure = hard true
status_info unable_to_route = hard true
status_info network_congestion = soft true
status_info routing_loop_detected = hard true
status_info delivery_time_expired = hard true
status_info undefined_protocol_status = hard true
status_info invalid_command = hard true
status_info syntax_error = hard true
status_info too_many_recipients = soft true
status_info invalid_command_arguments = hard true
status_info wrong_protocol_version = hard true
status_info undefined_media_error = hard true
status_info media_not_supported = hard true
status_info conversion_required_and_prohibited = hard true
status_info conversion_required_but_not_supported = hard true
status_info conversion_with_loss_performed = hard true
status_info conversion_failed = hard true
status_info undefined_security_status = hard true
status_info message_refused = hard true
status_info mailing_list_expansion_prohibited = hard true
status_info security_conversion_required_but_not_possible = hard true
status_info security_features_not_supported = hard true
status_info crypto_failure = hard true
status_info crypto_algorithm_not_supported = hard true
status_info message_integrity_failure = hard true
status_info undefined_code = hard true

-- The keys of `bounceStatusMap`.
unfoldable pub all_codes : List Code
all_codes =
    service_not_available ∷ mail_action_not_taken ∷ action_aborted_error_processing
    ∷ action_aborted_insufficient_storage ∷ cmd_syntax_error ∷ arguments_syntax_error
    ∷ cmd_not_implemented ∷ bad_cmd_sequence ∷ cmd_param_not_implemented ∷ mailbox_unavailable
    ∷ recipient_not_local ∷ action_aborted_exceeded_storage_alloc ∷ mailbox_name_invalid
    ∷ transaction_failed ∷ address_doesnt_exist ∷ other_address_error
    ∷ bad_destination_mailbox_address ∷ bad_destination_system_address
    ∷ bad_destination_mailbox_address_syntax ∷ destination_mailbox_ambiguous
    ∷ destination_mailbox_address_invalid ∷ mailbox_moved ∷ bad_sender_mailbox_address_syntax
    ∷ bad_sender_system_address ∷ undefined_mailbox_error ∷ mailbox_disabled ∷ mailbox_full
    ∷ message_len_exceeds_limit ∷ mailing_list_expansion_problem ∷ undefined_mail_system_status
    ∷ mail_system_full ∷ system_not_accepting_network_messages ∷ system_not_capable_of_features
    ∷ message_too_big_for_system ∷ undefined_network_status ∷ no_answer_from_host ∷ bad_connection
    ∷ routing_server_failure ∷ unable_to_route ∷ network_congestion ∷ routing_loop_detected
    ∷ delivery_time_expired ∷ undefined_protocol_status ∷ invalid_command ∷ syntax_error
    ∷ too_many_recipients ∷ invalid_command_arguments ∷ wrong_protocol_version
    ∷ undefined_media_error ∷ media_not_supported ∷ conversion_required_and_prohibited
    ∷ conversion_required_but_not_supported ∷ conversion_with_loss_performed ∷ conversion_failed
    ∷ undefined_security_status ∷ message_refused ∷ mailing_list_expansion_prohibited
    ∷ security_conversion_required_but_not_possible ∷ security_features_not_supported
    ∷ crypto_failure ∷ crypto_algorithm_not_supported ∷ message_integrity_failure ∷ undefined_code
    ∷ []
