-- ===== src/Lib.antt =====
-- srnd: an NNTP server for overchan newsgroups, written in Go, with the daemon that shows its
-- boards.
--
-- A peer opens a connection (lib/nntp/conn_v1.go). Process reads its lines, finds the handler of
-- the first word and runs it. A handler answers with lines, changes the mode, the newsgroup or the
-- transport of the connection, or takes an article: readArticle reads the article up to a line of
-- one dot, reads its header (lib/nntp/message/header.go), asks the acceptor, and hands the article
-- to the storage (lib/store) and its parts to the parser of attachments.
--
-- Base: shared names, tests on numbers, lists measured by native numbers, Go strings as bytes.
-- Header: the header map of an article; Header.Io its reader and writer.
-- Nntp: message ids and newsgroups (common.go), modes (mode.go), stream events (streaming.go),
--   policies (acceptor.go), reply codes (codes.go).
-- Store: FilesystemStorage (fs.go) over a directory, whose faults an oracle gives, and the null
--   storage (null.go); both are a `Storage`, the interface that a connection takes.
--   Store.Refinement compares the files with a map from ids to texts.
-- Inbound: the connection: Article for readArticle, Commands for the handlers that take articles,
--   Groups for newsgroups and TLS, Process for the table of handlers and the loop, Evolution for
--   what every handler keeps.
-- Outbound: the connection to a peer: Outbound itself for its negotiation and the list of
--   newsgroups, Fetch for DownloadGroup, Feed for StreamAndQuit, Session for whole conversations.
-- Board: the models of the daemon (src/srnd/model_mem.go): posts and attachments, Board.Thread
--   for threads, Board.Page for a page of a board.
-- Expiration: what expires (src/srnd/expiration.go), as the effects that are sent on.
-- Address: addresses blinded with a key (src/srnd/util.go), with base64.
-- Daemon: the daemon's own connection (src/srnd/nntp.go, with the policies of policy.go, the
--   feeds of daemon.go and the header functions of util.go). Its parts are Pending for the stream
--   of offered articles, Wanted for checkMIMEHeader, Deliver for storeMessage, Account, Transfer,
--   Reader and Groups for the commands of handleLine, Lines for handleLine and the loop of
--   runConnection, Mime for headers and dotted bodies, Policy for AllowsNewsgroup, Feeds for the
--   cases of pollfeeds and poll that register feeds and pick connections, Dial for the
--   handshakes, Scrape for requestArticle and scrapeServer. Deliver tells the daemon of an
--   article, Feeds picks the connections that it is offered to, and Pending offers it there.
-- Moderation: moderation events, their text, and the engine that carries them out
--   (src/srnd/mod.go); it reads blinded addresses with Address.
-- Markup: the markup of posts (src/srnd/markup.go), with its patterns written out; xurls and the
--   links that the template engine knows are parameters.
-- Examples: the theorems applied to concrete inputs.
--
-- Names are those of the source in this notation: readArticle is read_article, v1Conn is Conn.
-- State is passed on explicitly. A panic is `none`, an error value `some` text. The lines of the
-- peer, the errors of writes, random bytes, the clock and the package mime are fields of `Env` and
-- `Conn`. The goroutines of readArticle talk over channels and pipes with one reader and one
-- writer each; the model runs them in the order of the data. A copy of the body that ends early
-- can leave the reader and the acceptor waiting for each other: readArticle does not return then,
-- which the field `hung` of the connection says, and Process ends in `waiting`. Where that happens
-- depends on the pieces in which the body is copied, whose bounds piece_start and piece_end give.
-- Inbound.Article.Whole is about the calls that nothing stops.
--
-- The patterns of message ids and newsgroups match a line of the text (MustCompilePOSIX); the
-- names with _line are the tests on one line. The line GROUP of DownloadGroup is a format of its
-- own, which a parameter formats. writeMIMEHeader writes a header in pieces and keeps the error of
-- the last.
--
-- The daemon's database and store are records of functions on one state, and so is its TLS; the
-- regular expressions of a policy are a parameter. A call of the daemon returns, panics or blocks
-- (`Run`). The channels of a connection are lists of at most 1024 events, as createNNTPConnection
-- makes them. The backlog is an int64, written modulo 2 ^ 64. A call of offerStream is one step,
-- though the source adds to the backlog outside the lock. The lines that are written to a peer of
-- the daemon arrive, but for the body of an article, where `write_error` may stop the copy.
--
-- Process has no bound of its own and runs on fuel; one more than the lines that the peer can send
-- is enough. Times and sizes are natural numbers; nothing in the modelled code wraps around below
-- 63 bits. strings.ToUpper is modelled on ASCII.
--
-- Not modelled: logging, JSON output of a connection's state, database drivers, the web front
-- end, caches, configuration, cryptography, TLS itself, thumbnails and webhooks. Of the daemon: the
-- goroutines that dial, sleep and dial again (persistFeed, startReader, Run), its article
-- store and the pages of its moderators.
pub mod Base
pub mod Header
pub mod Nntp
pub mod Store
pub mod Inbound
pub mod Outbound
pub mod Board
pub mod Expiration
pub mod Address
pub mod Daemon
pub mod Moderation
pub mod Markup
pub mod Examples
