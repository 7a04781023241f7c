-- ===== src/Smtp/Codes.antt =====
-- The reply codes and enhanced status codes of email/smtpemail/bouncespy.go.
use blocky_cloud.Prelude.{[]}
use blocky_cloud.Address.Utf8.{Bytes}
pub use blocky_cloud.Text.{codes}

-- The constants of type `bounceReason` but `bounceCodeNotFound`, which is the empty text.
pub data Code : Type 0 where
  service_not_available : Code
  mail_action_not_taken : Code
  action_aborted_error_processing : Code
  action_aborted_insufficient_storage : Code
  cmd_syntax_error : Code
  arguments_syntax_error : Code
  cmd_not_implemented : Code
  bad_cmd_sequence : Code
  cmd_param_not_implemented : Code
  mailbox_unavailable : Code
  recipient_not_local : Code
  action_aborted_exceeded_storage_alloc : Code
  mailbox_name_invalid : Code
  transaction_failed : Code
  address_doesnt_exist : Code
  other_address_error : Code
  bad_destination_mailbox_address : Code
  bad_destination_system_address : Code
  bad_destination_mailbox_address_syntax : Code
  destination_mailbox_ambiguous : Code
  destination_mailbox_address_invalid : Code
  mailbox_moved : Code
  bad_sender_mailbox_address_syntax : Code
  bad_sender_system_address : Code
  undefined_mailbox_error : Code
  mailbox_disabled : Code
  mailbox_full : Code
  message_len_exceeds_limit : Code
  mailing_list_expansion_problem : Code
  undefined_mail_system_status : Code
  mail_system_full : Code
  system_not_accepting_network_messages : Code
  system_not_capable_of_features : Code
  message_too_big_for_system : Code
  undefined_network_status : Code
  no_answer_from_host : Code
  bad_connection : Code
  routing_server_failure : Code
  unable_to_route : Code
  network_congestion : Code
  routing_loop_detected : Code
  delivery_time_expired : Code
  undefined_protocol_status : Code
  invalid_command : Code
  syntax_error : Code
  too_many_recipients : Code
  invalid_command_arguments : Code
  wrong_protocol_version : Code
  undefined_media_error : Code
  media_not_supported : Code
  conversion_required_and_prohibited : Code
  conversion_required_but_not_supported : Code
  conversion_with_loss_performed : Code
  conversion_failed : Code
  undefined_security_status : Code
  message_refused : Code
  mailing_list_expansion_prohibited : Code
  security_conversion_required_but_not_possible : Code
  security_features_not_supported : Code
  crypto_failure : Code
  crypto_algorithm_not_supported : Code
  message_integrity_failure : Code
  undefined_code : Code

abbrev pub bounce_code_not_found : Bytes
bounce_code_not_found = []

abbrev pub reason : Code → Bytes
reason service_not_available = codes "421"
reason mail_action_not_taken = codes "450"
reason action_aborted_error_processing = codes "451"
reason action_aborted_insufficient_storage = codes "452"
reason cmd_syntax_error = codes "500"
reason arguments_syntax_error = codes "501"
reason cmd_not_implemented = codes "502"
reason bad_cmd_sequence = codes "503"
reason cmd_param_not_implemented = codes "504"
reason mailbox_unavailable = codes "550"
reason recipient_not_local = codes "551"
reason action_aborted_exceeded_storage_alloc = codes "552"
reason mailbox_name_invalid = codes "553"
reason transaction_failed = codes "554"
reason address_doesnt_exist = codes "5.0.0"
reason other_address_error = codes "5.1.0"
reason bad_destination_mailbox_address = codes "5.1.1"
reason bad_destination_system_address = codes "5.1.2"
reason bad_destination_mailbox_address_syntax = codes "5.1.3"
reason destination_mailbox_ambiguous = codes "5.1.4"
reason destination_mailbox_address_invalid = codes "5.1.5"
reason mailbox_moved = codes "5.1.6"
reason bad_sender_mailbox_address_syntax = codes "5.1.7"
reason bad_sender_system_address = codes "5.1.8"
reason undefined_mailbox_error = codes "5.2.0"
reason mailbox_disabled = codes "5.2.1"
reason mailbox_full = codes "5.2.2"
reason message_len_exceeds_limit = codes "5.2.3"
reason mailing_list_expansion_problem = codes "5.2.4"
reason undefined_mail_system_status = codes "5.3.0"
reason mail_system_full = codes "5.3.1"
reason system_not_accepting_network_messages = codes "5.3.2"
reason system_not_capable_of_features = codes "5.3.3"
reason message_too_big_for_system = codes "5.3.4"
reason undefined_network_status = codes "5.4.0"
reason no_answer_from_host = codes "5.4.1"
reason bad_connection = codes "5.4.2"
reason routing_server_failure = codes "5.4.3"
reason unable_to_route = codes "5.4.4"
reason network_congestion = codes "5.4.5"
reason routing_loop_detected = codes "5.4.6"
reason delivery_time_expired = codes "5.4.7"
reason undefined_protocol_status = codes "5.5.0"
reason invalid_command = codes "5.5.1"
reason syntax_error = codes "5.5.2"
reason too_many_recipients = codes "5.5.3"
reason invalid_command_arguments = codes "5.5.4"
reason wrong_protocol_version = codes "5.5.5"
reason undefined_media_error = codes "5.6.0"
reason media_not_supported = codes "5.6.1"
reason conversion_required_and_prohibited = codes "5.6.2"
reason conversion_required_but_not_supported = codes "5.6.3"
reason conversion_with_loss_performed = codes "5.6.4"
reason conversion_failed = codes "5.6.5"
reason undefined_security_status = codes "5.7.0"
reason message_refused = codes "5.7.1"
reason mailing_list_expansion_prohibited = codes "5.7.2"
reason security_conversion_required_but_not_possible = codes "5.7.3"
reason security_features_not_supported = codes "5.7.4"
reason crypto_failure = codes "5.7.5"
reason crypto_algorithm_not_supported = codes "5.7.6"
reason message_integrity_failure = codes "5.7.7"
reason undefined_code = codes "9.1.1"
