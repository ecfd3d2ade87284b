-- ===== src/Lib.antt =====
-- A model of nksrv, a server for Usenet news and imageboards.
--
-- The program. src/nksrv/lib/nntp is an NNTP server: `NNTPServer` accepts connections, and each
-- of them is a `ConnState` whose `serveClient` reads command lines, looks the keyword up in a
-- table and calls a handler, which checks its arguments and the rights of the connection and then
-- calls the provider of articles. The handlers stand on the words of the protocol (message
-- identifiers, group names, ranges, dates, wildmats), and those on byte-string helpers of
-- src/nksrv/lib/utils.
--
-- What models which part:
--   Base         shared names: lists, bytes, the Boolean tests of numbers, `int64`
--   Utf8         `utf8.Valid` of the standard library
--   Ascii        src/nksrv/lib/utils/text/asciiutils/asciiutils.go
--                Ascii/UnixText models unixtextreader.go beside it
--   BufReader    src/nksrv/lib/utils/text/bufreader/bufreader.go: reading, putting back
--                and searching bytes in a buffer over a reader
--   DotReader    src/nksrv/lib/utils/text/bufreader/dotreader.go: the reader of an article,
--                and the loops over its bytes (Scan)
--   TestSrv      src/nksrv/lib/nntp/testsrv: the provider that the server is tried with, joined to
--                the session in TestSrv/Serving
--   BackRefs     src/nksrv/lib/app/webib0/processbackrefs.go: the back-references of a thread, with
--                what they are to be in Turned
--   Puller       src/nksrv/lib/nntp/client_common.go, client_puller_utils.go and client_puller.go: the
--                client that fetches articles: its responses (Response), lines (Lines), lists of
--                groups and capabilities (Lists), the numbers of a group (Slices), the lists of
--                articles (HdrList, OverList, SliceList), what is done with a group (Group), and
--                the two routines that ask for articles and read them (Todo)
--   MailTools    src/nksrv/lib/mail/tools.go: the identifiers of a References header, with the
--                grammar of comments and words in First
--   MailHeader   src/nksrv/lib/mail/common.go and headermap.go: names of headers
--   Yenc         src/nksrv/lib/utils/yenc: the encoder and the decoder of binary posts
--   Sink         `io.Writer`, a parameter of the writers
--   Nntp/Syntax  src/nksrv/lib/nntp/servutil.go: keywords, identifiers, group names, numbers
--   Nntp/Range   `parseRange` of servutil.go
--   Nntp/Dates   `parseDateSlice` and `parseTimeSlice` of servutil.go
--   Nntp/Wildmat src/nksrv/lib/nntp/wildmat.go: the grammar in Grammar, over the loop of Scanning,
--                and the pieces in Compile, over the expressions of Regexp
--   Nntp/Args    the loop over the arguments of a command line, of server.go
--   Nntp/Session src/nksrv/lib/nntp/stypes.go, with the handlers of scmd_read.go (Read),
--                scmd_post.go (Post), scmd_list.go and scmd_base.go (Listing), scmd_auth.go and
--                auth.go (Auth), `cmdCapabilities` (Capabilities) and the command loop of
--                server.go (Serve); Permission, Login, Capabilities/Honest and Illegal hold
--                what is proved of them
--
-- How they correspond. A Go string or byte slice is a list of numbers, one for each byte. A loop
-- over an index is a recursion on the rest of the list, so it needs no fuel. Fuel stands
-- where a round may take no byte, or many: the reader of articles, which may put one back, has two
-- rounds for each byte, the decoder of Yenc two for each line, a loop over the lines of a list one
-- for what `DotReader.Scan.Ending.size` counts, and the slices of a group one for each number. `uint64`
-- arithmetic is written out modulo 2^64. A handler is a function from the state of the connection
-- to a result and the next state, or to a panic, which `AbortOnErr` and `Responder.Abort` raise
-- and `serveClient` recovers. What the connection sends and what it asks of the provider is kept
-- as a trace of events.
--
-- What is a parameter. The provider of articles, the password provider, the TLS library, the
-- clock and the network are the record `Server` of Nntp/Session. The regular expressions of a
-- wildmat are kept as the texts handed to `regexp.MustCompile`; its panic is modelled, by a reader of
-- the part of the syntax that is written, and matching is an argument. The
-- puller's database answers according to the calls before (`Puller.Lists.Env`), and where two routines run
-- beside each other what it and the network answer is chosen by the step. The slices of a group
-- are any function of the calls before.
--
-- What is not modelled. Of a reply with several lines, other than the list of capabilities, only
-- the first is an event. Logging is left out. Of the puller the reading of an article, the rounds
-- over all groups and the connecting are left out. The accept loop, the certificates' files, the
-- client that sends articles, the rest of mail and of the imageboard, the renderers, the databases
-- and the command-line programs are outside of the model.
pub mod Ascii
pub mod BackRefs
pub mod Base
pub mod BufReader
pub mod DotReader
pub mod MailHeader
pub mod MailTools
pub mod Nntp
pub mod Puller
pub mod Sink
pub mod TestSrv
pub mod Utf8
pub mod Yenc
