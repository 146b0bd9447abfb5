-- ===== src/Inbound/Process.antt =====
-- newInboundConn, Negotiate and Process of lib/nntp/conn_v1.go: the table of handlers and the loop
-- over the lines of the peer. Process has no bound of its own, so it runs on fuel; `out_of_fuel`
-- is no result of the code.
pub mod Dispatch
use srndv.Base.{
  ℕ, zero, suc, Bool, true, false, Option, none, some, List, [], ◌∷◌, ◌++◌, if◌then◌else◌, ◌>>=◌,
  Bytes, codes, same, split, to_upper,
}
use srndv.Header.{is_empty}
use srndv.Nntp.Codes.{rpl_unknown_command}
use srndv.Nntp.Mode.{mode_unset}
use srndv.Nntp.Stream.{first_or_nil}
use srndv.Inbound.{
  Error, Env, ConnState, Handshake, Conn, Outcome, Handler, close, printf_line, next_line,
}
use srndv.Inbound.Commands.{
  reply, posting_line, switch_mode_inbound, quit_connection, send_capabilities, nntp_recv_article,
  nntp_post_article, streaming_line,
}
use srndv.Inbound.Groups.{newsgroup_list, upgrade_tls, switch_newsgroup}

-- the keys of the map `cmds`
pub data Command : Type 0 where
  starttls ihave post mode quit capabilities check takethis list group : Command

abbrev pub table : List (Bytes × Command)
table =
    (codes "STARTTLS", starttls)
    ∷ (codes "IHAVE", ihave)
    ∷ (codes "POST", post)
    ∷ (codes "MODE", mode)
    ∷ (codes "QUIT", quit)
    ∷ (codes "CAPABILITIES", capabilities)
    ∷ (codes "CHECK", check)
    ∷ (codes "TAKETHIS", takethis)
    ∷ (codes "LIST", list)
    ∷ (codes "GROUP", group)
    ∷ []

unfoldable pub find_command : Bytes → List (Bytes × Command) → Option Command
find_command word [] = none
find_command word ((name, cmd) ∷ more) = if same name word then some cmd else find_command word more

-- the first word of a line in upper case
unfoldable pub command_word : Bytes → Bytes
command_word line = first_or_nil (split 32 (to_upper line))

-- How the loop ended: at an empty line or the end of the input, at an error, in a panic, or in a
-- call of readArticle that waits for ever.
pub data Ended (S : Type 0) : Type 0 where
  closed : Conn S → Ended S
  stopped : Conn S → Error → Ended S
  panicked : Ended S
  waiting : Conn S → Ended S
  out_of_fuel : Ended S

-- the connection that newInboundConn makes for an accepted socket
unfoldable pub new_inbound_conn :
    {S : Type 0} → Bytes → Bool → S → List Bytes → List Handshake → Conn S
new_inbound_conn addr anon store input handshakes = record {
  state = record {
    feed_name = codes "inbound-feed";
    conn_name = [];
    host_name = addr;
    mode = mode_unset;
    group = [];
    article = [];
    policy = none;
    is_open = true;
  };
  tls_on = false;
  authenticated = anon;
  input = input;
  handshakes = handshakes;
  writes = 0;
  sent = [];
  hooked = [];
  hung = false;
  store = store;
}

-- the name under which the server speaks
unfoldable pub server_name_of : Bytes → Bytes
server_name_of name = if is_empty name then codes "nntp.anon.tld" else name

-- the loop's condition, on what a handler returned
unfoldable pub resume : {S : Type 0} → (Conn S → Ended S) → Outcome S → Ended S
resume loop none = panicked
resume loop (some (c, none)) = if c.hung then waiting c else loop c
resume loop (some (c, some e)) = stopped c e

module _ {S : Type 0} (env : Env S) where
  unfoldable pub handler : Command → Handler S
  handler starttls = upgrade_tls env
  handler ihave = nntp_recv_article env
  handler post = nntp_post_article env
  handler mode = switch_mode_inbound env
  handler quit = quit_connection env
  handler capabilities = send_capabilities env
  handler check = streaming_line env
  handler takethis = streaming_line env
  handler list = newsgroup_list env
  handler group = switch_newsgroup env

  unfoldable pub dispatch : Option Command → Handler S
  dispatch (some cmd) c line = handler cmd c line
  dispatch none c line =
      some (printf_line env c (reply rpl_unknown_command (codes "Unknown Command: " ++ line)))

  -- one line that is not empty
  unfoldable pub handle_line : Handler S
  handle_line c line = dispatch (find_command (command_word line) table) c line

  -- Negotiate
  unfoldable pub negotiate : Conn S → Conn S × Option Error
  negotiate c = printf_line env c (posting_line c)

  -- Process; the lines behind the first are left in the connection that the handler gets
  unfoldable pub process : ℕ → Conn S → Ended S
  process zero c = out_of_fuel
  process (suc fuel) c =
      let (line, lines) = next_line c.input in
      let c' = record c { input = lines } in
      elim (is_empty line) [
        | true ↦ closed (close c')
        | false ↦ resume (process fuel) (handle_line c' line)
      ]
