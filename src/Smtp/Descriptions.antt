-- ===== src/Smtp/Descriptions.antt =====
-- `reasonDescriptions` and `bounceReason.String` of email/smtpemail/bouncespy.go.
use blocky_cloud.Prelude.{List, [], ◌∷◌, ◌++◌, if◌then◌else◌}
use blocky_cloud.Address.Utf8.{Bytes}
use blocky_cloud.Address.Lexer.{is_empty}
use blocky_cloud.Text.{same}
use blocky_cloud.Smtp.StatusMap.{all_codes}
use blocky_cloud.Smtp.Codes.{
  codes, reason, Code, service_not_available, mail_action_not_taken,
  action_aborted_error_processing, action_aborted_insufficient_storage, cmd_syntax_error,
  arguments_syntax_error, cmd_not_implemented, bad_cmd_sequence, cmd_param_not_implemented,
  mailbox_unavailable, recipient_not_local, action_aborted_exceeded_storage_alloc,
  mailbox_name_invalid, transaction_failed, address_doesnt_exist, other_address_error,
  bad_destination_mailbox_address, bad_destination_system_address,
  bad_destination_mailbox_address_syntax, destination_mailbox_ambiguous,
  destination_mailbox_address_invalid, mailbox_moved, bad_sender_mailbox_address_syntax,
  bad_sender_system_address, undefined_mailbox_error, mailbox_disabled, mailbox_full,
  message_len_exceeds_limit, mailing_list_expansion_problem, undefined_mail_system_status,
  mail_system_full, system_not_accepting_network_messages, system_not_capable_of_features,
  message_too_big_for_system, undefined_network_status, no_answer_from_host, bad_connection,
  routing_server_failure, unable_to_route, network_congestion, routing_loop_detected,
  delivery_time_expired, undefined_protocol_status, invalid_command, syntax_error,
  too_many_recipients, invalid_command_arguments, wrong_protocol_version, undefined_media_error,
  media_not_supported, conversion_required_and_prohibited, conversion_required_but_not_supported,
  conversion_with_loss_performed, conversion_failed, undefined_security_status, message_refused,
  mailing_list_expansion_prohibited, security_conversion_required_but_not_possible,
  security_features_not_supported, crypto_failure, crypto_algorithm_not_supported,
  message_integrity_failure, undefined_code,
}

abbrev pub description : Code → Bytes
description service_not_available = codes "service not available"
description mail_action_not_taken = codes "mail action not taken: mailbox unavailable"
description action_aborted_error_processing = codes "action aborted: error in processing"
description action_aborted_insufficient_storage =
    codes "action aborted: insufficient system storage"
description cmd_syntax_error =
    codes "the server could not recognize the command due to a syntax error"
description arguments_syntax_error = codes "a syntax error was encountered in command arguments"
description cmd_not_implemented = codes "this command is not implemented"
description bad_cmd_sequence = codes "the server has encountered a bad sequence of commands"
description cmd_param_not_implemented = codes "a command parameter is not implemented"
description mailbox_unavailable = codes "user's mailbox was unavailable (such as not found)"
description recipient_not_local = codes "the recipient is not local to the server"
description action_aborted_exceeded_storage_alloc =
    codes "the action was aborted due to exceeded storage allocation"
description mailbox_name_invalid =
    codes "the command was aborted because the mailbox name is invalid"
description transaction_failed = codes "the transaction failed for some unstated reason"
description address_doesnt_exist = codes "address does not exist"
description other_address_error = codes "other address status"
description bad_destination_mailbox_address = codes "bad destination mailbox address"
description bad_destination_system_address = codes "bad destination system address"
description bad_destination_mailbox_address_syntax = codes "bad destunation mailbox address syntax"
description destination_mailbox_ambiguous = codes "destination mailbox address ambiguous"
description destination_mailbox_address_invalid = codes "destination mailbox address invalid"
description mailbox_moved = codes "mailbox has moved"
description bad_sender_mailbox_address_syntax = codes "bad sender's mailbox address syntax"
description bad_sender_system_address = codes "bad sender's system address"
description undefined_mailbox_error = codes "other or undefined mailbox status"
description mailbox_disabled = codes "mailbox disabled, not accepting messages"
description mailbox_full = codes "mailbox full"
description message_len_exceeds_limit = codes "message length exceeds administrative limit"
description mailing_list_expansion_problem = codes "mailing list expansion problem"
description undefined_mail_system_status = codes "other or undefined mail system status"
description mail_system_full = codes "mail system full"
description system_not_accepting_network_messages = codes "system not accepting network messages"
description system_not_capable_of_features = codes "system not capable of selected features"
description message_too_big_for_system = codes "message too big for system"
description undefined_network_status = codes "other or undefined network or routing status"
description no_answer_from_host = codes "no answer from host"
description bad_connection = codes "bad connection"
description routing_server_failure = codes "routing server failure"
description unable_to_route = codes "unable to route"
description network_congestion = codes "network congestion"
description routing_loop_detected = codes "routing loop detected"
description delivery_time_expired = codes "delivery time expired"
description undefined_protocol_status = codes "other or undefined protocol status"
description invalid_command = codes "invalid command"
description syntax_error = codes "syntax error"
description too_many_recipients = codes "too many recipients"
description invalid_command_arguments = codes "invalid command arguments"
description wrong_protocol_version = codes "wrong protocol version"
description undefined_media_error = codes "other or undefined media error"
description media_not_supported = codes "media not supported"
description conversion_required_and_prohibited = codes "conversion required and prohibited"
description conversion_required_but_not_supported = codes "conversion required but not supported"
description conversion_with_loss_performed = codes "conversion with loss performed"
description conversion_failed = codes "conversion failed"
description undefined_security_status = codes "other or undefined security status"
description message_refused = codes "delivery not authorized, message refused"
description mailing_list_expansion_prohibited = codes "mailing list expansion prohibited"
description security_conversion_required_but_not_possible =
    codes "security conversion required but nor possible"
description security_features_not_supported = codes "security features not supported"
description crypto_failure = codes "cryptographic failure"
description crypto_algorithm_not_supported = codes "cryptographic algorithm not supported"
description message_integrity_failure = codes "message integrity failure"
description undefined_code = codes "hard bounce with no bounce code found"

-- `reasonDescriptions[r]`: the empty text where no key is `r`.
unfoldable pub find_description : List Code → Bytes → Bytes
find_description [] r = []
find_description (c ∷ cs) r =
    let rest = find_description cs r in if same (reason c) r then description c else rest

-- `bounceReason.String`.
unfoldable pub to_text : Bytes → Bytes
to_text r =
    if is_empty r
    then codes "no bounce reason found"
    else r ++ (codes " - " ++ find_description all_codes r)
