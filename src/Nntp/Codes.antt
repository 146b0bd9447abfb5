-- ===== src/Nntp/Codes.antt =====
-- lib/nntp/codes.go: the reply codes that the connections send and expect, and their fixed lines.
use srndv.Base.{◌++◌, Bytes, codes}

abbrev pub rpl_capabilities : Bytes
rpl_capabilities = codes "101"

abbrev pub rpl_posting_allowed : Bytes
rpl_posting_allowed = codes "200"

abbrev pub rpl_posting_not_allowed : Bytes
rpl_posting_not_allowed = codes "201"

abbrev pub rpl_posting_streaming : Bytes
rpl_posting_streaming = codes "203"

abbrev pub rpl_quit : Bytes
rpl_quit = codes "205"

abbrev pub rpl_group : Bytes
rpl_group = codes "211"

abbrev pub rpl_list : Bytes
rpl_list = codes "215"

abbrev pub rpl_transfer_okay : Bytes
rpl_transfer_okay = codes "235"

abbrev pub rpl_streaming_accept : Bytes
rpl_streaming_accept = codes "238"

abbrev pub rpl_streaming_transfered : Bytes
rpl_streaming_transfered = codes "239"

abbrev pub rpl_post_received : Bytes
rpl_post_received = codes "240"

abbrev pub line_posting_allowed : Bytes
line_posting_allowed = rpl_posting_allowed ++ codes " Posting Allowed"

abbrev pub line_posting_not_allowed : Bytes
line_posting_not_allowed = rpl_posting_not_allowed ++ codes " Posting Not Allowed"

abbrev pub rpl_transfer_accepted : Bytes
rpl_transfer_accepted = codes "335"

abbrev pub rpl_post_accepted : Bytes
rpl_post_accepted = codes "340"

abbrev pub rpl_tls_continue : Bytes
rpl_tls_continue = codes "382"

abbrev pub rpl_wrong_mode : Bytes
rpl_wrong_mode = codes "401"

abbrev pub rpl_generic_error : Bytes
rpl_generic_error = codes "403"

abbrev pub rpl_no_such_group : Bytes
rpl_no_such_group = codes "411"

abbrev pub rpl_streaming_defer : Bytes
rpl_streaming_defer = codes "431"

abbrev pub rpl_transfer_not_wanted : Bytes
rpl_transfer_not_wanted = codes "435"

abbrev pub rpl_transfer_defer : Bytes
rpl_transfer_defer = codes "436"

abbrev pub rpl_transfer_reject : Bytes
rpl_transfer_reject = codes "437"

abbrev pub rpl_streaming_reject : Bytes
rpl_streaming_reject = codes "438"

abbrev pub rpl_posting_not_permitted : Bytes
rpl_posting_not_permitted = codes "440"

abbrev pub rpl_posting_failed : Bytes
rpl_posting_failed = codes "441"

abbrev pub rpl_unknown_command : Bytes
rpl_unknown_command = codes "500"

abbrev pub rpl_syntax_error : Bytes
rpl_syntax_error = codes "501"

abbrev pub rpl_tls_rejected : Bytes
rpl_tls_rejected = codes "580"

abbrev pub line_invalid_mode : Bytes
line_invalid_mode = rpl_syntax_error ++ codes " Invalid Mode Selected"

abbrev pub line_streaming_allowed : Bytes
line_streaming_allowed = rpl_posting_streaming ++ codes " aw yeh streamit brah"

abbrev pub line_rpl_quit : Bytes
line_rpl_quit = rpl_quit ++ codes " bai"

abbrev pub rpl_article : Bytes
rpl_article = codes "220"

abbrev pub rpl_article_headers : Bytes
rpl_article_headers = codes "221"

abbrev pub rpl_overview : Bytes
rpl_overview = codes "224"

abbrev pub rpl_newsgroup_list : Bytes
rpl_newsgroup_list = codes "231"

abbrev pub rpl_auth_accepted : Bytes
rpl_auth_accepted = codes "281"

abbrev pub rpl_more_auth : Bytes
rpl_more_auth = codes "381"
