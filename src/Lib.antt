-- ===== src/Lib.antt =====
-- Verification of blocky-cloud: the Go packages under email/, and bcerrors.
--
-- Parts of the program and the files that model them.
--
-- Batcher (email/batcher/batcher.go) collects items for handlers. Batcher/Options.antt has the struct
-- Options, newOptionsWithDefaults and NewMergedOptions; Batcher/Split.antt has Split;
-- Batcher/State.antt has BatcherG, nextBatch, New, AddNoWait, callHandler and Shutdown. The mutex
-- makes AddNoWait, the end of a round of callHandler and the first half of Shutdown atomic. They are
-- the steps of a machine, together with the return of a handler and the end of a goroutine, and a run
-- is any list of such events: `add`, `returns`, `locks`, `exits`, `shuts_down`. The handler itself is
-- outside: an event carries its error. Channels are numbers, in the order of their creation, and
-- `replies` holds what was sent to them. Proofs: Batcher/NextBatch.antt, Batcher/Limits.antt,
-- Batcher/Delivery.antt, Batcher/Shutdown.antt, Batcher/Progress.antt, Batcher/Sizes.antt.
--
-- Address (email/address.go) parses and prints RFC 5322 addresses. Address/Utf8.antt has the decoding
-- and encoding of runes that the Go library does, Address/Chars.antt the character classes,
-- Address/Lexer.antt the tokens (consumeAtom, consumeQuotedString, consumeComment, skipCFWS),
-- Address/Spec.antt consumeAddrSpec, Address/Phrase.antt consumePhrase and consumeDisplayNameComment,
-- Address/Parser.antt parseAddress and consumeGroupList, Address/Entry.antt the entry points Parse,
-- VerifyFormat, ParseList and VerifyListFormat, and Address/Printer.antt String and quoteString. A
-- string is its list of bytes, and the parser's state is the rest of its input. Proofs:
-- Address/Verify.antt, Address/Limits.antt, Address/Ascii.antt, Address/Dotted.antt,
-- Address/RoundTrip.antt.
--
-- Smtp (email/smtpemail) sends messages. Smtp/Codes.antt and Smtp/StatusMap.antt have the constants
-- and bounceStatusMap of bouncespy.go, Smtp/Bounce.antt the comparison of reasons and
-- extractMsgBounceReason, Smtp/Session.antt the calls of a conversation with the server and
-- Dialer.dial, Smtp/Sender.antt sendMessage, Smtp/Descriptions.antt bounceReason.String,
-- Smtp/Message.antt prepare of message.go, and of writer.go Smtp/LineWriter.antt base64LineWriter,
-- Smtp/Fold.antt writeHeader and writeLine, Smtp/Multipart.antt writeMessage. Smtp/Pool.antt has the
-- pool of senders of smtp_sender.go, and SendBatch, prepareAndSend and send of message_sender.go over
-- it, Smtp/PoolPanics.antt their proofs, and Smtp/ErrorCode.antt errorCode. Smtp/Topic.antt has
-- sendToTopic of message_sender.go and ReceiveBatch of delivery_subscription.go, with the generated
-- protocol and the pubsub library as a parameter, and Smtp/Published.antt their proofs.
-- Smtp/SenderUrl.antt has the options of a sender's URL in urls.go, Smtp/QueryOrder.antt the proof on
-- their order. Smtp/DialerUrl.antt has ParseDialerURL and Validate of dialer.go with smtpAuth, and
-- Smtp/DialerQuery.antt and Smtp/Anonymous.antt the proofs on them. Smtp/LoginAuth.antt has loginAuth
-- of login_auth.go, and Smtp/LoginHost.antt its proof. The server is a function of the calls so far,
-- which gives the error of the last of them; so every server is covered, and a conversation is a list
-- of calls, the newest first. Proofs: Smtp/Reasons.antt, Smtp/Recipients.antt, Smtp/Transaction.antt,
-- Smtp/Verdict.antt; Smtp/LineWriter.antt holds its own, Smtp/Prepared.antt has those on prepare,
-- Smtp/Unfolded.antt, Smtp/Broken.antt and Smtp/HeaderText.antt those on folding, Smtp/Nesting.antt
-- and Smtp/TopLevel.antt those on multiparts.
--
-- Sender (email/message_sender.go, email/templated_sender.go) is the portable sender over the batcher.
-- Sender/Message.antt has the messages and what Send makes of them, Sender/State.antt Send and
-- Shutdown. The state has the mutex and where each call stands; events are calls, the lock given to a
-- call, an answer received, a context that ends, and the events of the batcher. Sender/Simulation.antt
-- shows that the batcher in it does a run of its own, so the batcher's theorems serve. Proofs:
-- Sender/Channels.antt, Sender/Single.antt, Sender/Batches.antt, Sender/Starved.antt,
-- Sender/Kept.antt.
--
-- Blocky (email/blockyemail/blocky.go): Blocky/Upload.antt has the upload of attachments by chunks,
-- and Blocky/Uploaded.antt its proofs. The service and the reads of the file are parameters.
--
-- Subscription (email/delivery_subscription.go) receives delivery events. Subscription/State.antt has
-- DeliverySubscription, with a round of Receive's loop, the end of a fetch and Shutdown as steps;
-- Subscription/BatchSize.antt has updateBatchSize over the laws of float64 in Subscription/Float.antt,
-- and Subscription/Event.antt the events, driver's and portable. Proofs: Subscription/Queue.antt,
-- Subscription/Progress.antt, Subscription/Sticky.antt.
--
-- Errors (bcerrors/errors.go): Errors/Chain.antt has chains of errors with Is and As,
-- Errors/Links.antt such a chain as a list, Errors/Code.antt has DoNotWrap, Code and ErrorAs, and
-- wrapError of email/delivery_subscription.go, with their proofs.
--
-- Template (email/emailtemplate/template.go) keeps templates and renders messages. Template/Data.antt
-- has mergeData, Template/Store.antt the store ParsedTemplates, Template/Execute.antt Execute over an
-- engine that is a parameter. Proofs: Template/Views.antt, Template/Recipients.antt,
-- Template/Data.antt.
--
-- Text.antt has Go's strings. Prelude.antt passes shared names on, with Boolean tests
-- (Prelude/Tests.antt), lists measured by native numbers (Prelude/Lists.antt) and integers
-- (Prelude/Int.antt). Batcher/Tests.antt, Address/Tests.antt, Smtp/Tests.antt and the other modules
-- whose names end in Tests hold runs and the theorems at concrete inputs.
--
-- Bounds. Go's ints are natural numbers, but for the integers in a sender's URL and the size of
-- chunks: options, lengths and counters of these parts are never negative, and no theorem reaches the
-- range of an int64. A loop of Split recurs on the handlers that are left. A loop over runes recurs on
-- the bytes, with a count of the bytes of the last rune that are still to be passed. The loops of the
-- parser that read a token in each round take as fuel one more than the length of their input, and
-- each round reads at least a byte. The loop of sendMessage recurs on its retries, that of close on
-- the rounds until its context is done, that of base64LineWriter.Write takes two more than the length
-- of its text, since a round passes a byte or leaves a full line.
--
-- Not modelled. The pools of parsers and lists in email/address.go, whose values are set anew by each
-- call. The decoder of encoded words and the two encoders of Go's mime package are parameters.
-- Contexts, finalizers and logging. In sendMessage the times of events and the text that WriteTo
-- writes, which is one call; Go's unicode.IsDigit is a parameter. The lazy URL openers and the mux of
-- URLs, which register and look up openers, the senders of email/logemail that only log, the address
-- validator, and the messages of the blocky service but for their attachments.
pub mod Prelude
pub mod Batcher
pub mod Text
pub mod Address
pub mod Smtp
pub mod Errors
pub mod Subscription
pub mod Template
pub mod Sender
pub mod Blocky
