-- ===== src/Lib.antt =====
-- A verification library of OpenVPN GUI, the program that starts, watches and stops OpenVPN
-- daemons on Windows and talks to them over their management interface.
--
-- The parts and how they interact. A connection (`connection_t`, options.h) has a socket to the
-- daemon's management interface. Windows calls `OnManagement` (manage.c) with the events of that
-- socket; it cuts the bytes into lines and calls the handler of each notification, or the handler
-- of the command at the head of a queue. The handlers (openvpn.c) move the connection through its
-- states, show what happens, and give commands to `ManagementCommand`, which queues them behind
-- the ones that are not answered. Messages of the server reach echo.c, which shows them once and
-- mutes repetitions, and env_set.c, which collects variables for the environment of scripts.
-- openvpn_config.c finds the files of the connections in the folders and arranges them in groups
-- for the menu, config_parser.c reads them, as.c downloads new ones, options.c reads the command
-- line, pkcs11.c asks the daemon for the certificates of a token, and proxy.c tells it the proxy.
-- main.c keeps the active connections over a restart.
--
-- The files and what they model:
-- Base, Base/Lists, Base/Text, Base/Tokens, Base/Tests: shared names, lists over the native
--   numbers, C strings as lists of character codes without their NUL, `strtok` and `strstr`, with
--   streq and strbegins of misc.c.
-- Conn: `connection_t` of options.h as the record `Conn`, its member `manage` as `Manage`, the
--   enumerations of options.h and manage.h, the structs of echo.h. A bit of `flags` is a Boolean
--   field, a NULL pointer is `none`. What the program shows, posts or starts is appended to
--   `out`.
-- Env: env_set.c. The linked list behind `head` is a list with its first item first; `_wcsnicmp`,
--   `Widen` and the process environment are the record `Win`. Env/Order, Env/Insert, Env/Merge,
--   Env/Setenv, Env/Assign: order and lookup, insertion and deletion, the merged block, messages.
-- Misc: escape_string, url_decode and validate_input of misc.c; wcs_concat2 stands in Openvpn.
-- Config: legal_escape, is_comment, copy_token and tokenize of config_parser.c, with the buffer
--   `sline` and tokens as offsets into it. Config/Words: a reference tokenizer with a buffer for
--   each word, which Config/Refine compares. Config/Bounds, Config/RoundTrip: what is written,
--   and escaped texts. Config/File: config_readline and config_parse.
-- Manage: SendCommand, ManagementCommand, UnqueueCommand and CloseManagement of manage.c. The
--   circular list is a list with its head first; `sends` holds what the coming calls of `send`
--   accept and `sent` what they took. Manage/Read: the FD_READ part of OnManagement.
--   Manage/Events: OnManagement as a whole.
-- Echo: echo.c, from the digest of a message to its dispatch. Echo/History, Echo/Mute: its
--   history.
-- Openvpn: OnReady, OnHold and OnStateChange of openvpn.c. Openvpn/Exit: OnStop. Openvpn/Window:
--   OpenManagement, OnTimeout, OnMgmtValidate, DisconnectDaemon and the messages of the status
--   window. Openvpn/Stop, Openvpn/States, Openvpn/Up: stopping, and sequences of events.
--   Openvpn/Challenge: parse_dynamic_cr, parse_crtext and parse_input_request;
--   Openvpn/Challenge/RoundTrip reads them back. Openvpn/Password: OnPassword, whose result is
--   the dialog it opens. Openvpn/Password/Flow: a challenge from its announcement to its dialog.
--   Openvpn/Service: WrapLine, OnService and OnProcess, with Openvpn/Service/Lines.
--   Openvpn/Requests: OnNeedOk, OnNeedStr and OnInfoMsg, with Openvpn/Requests/NeedOk.
-- Profiles: BuildFileList0 and what it calls of openvpn_config.c; a folder's contents are the
--   answer `find_files`. Profiles/Groups: ActivateConfigGroups and BuildFileList. Profiles/Keeps,
--   Profiles/Scan, Profiles/Tree, Profiles/Formed: the invariant. Profiles/Above,
--   Profiles/Counted, Profiles/Active: the active groups. Profiles/Reached, Profiles/Origin,
--   Profiles/Found: what a scan finds.
-- Import: the names of downloaded profiles and DownloadProfileContent of as.c; the bytes of each
--   read are an argument. Import/Clean, Import/Chunks: names and buffer.
-- Options: ProcessCommandLine of options.c. Options/Words: its words. Options/Add: add_option and
--   parse_argv. Options/Expected: what the options set, described by name. Options/Settings: they
--   are read as they are written. Pkcs11: the list of certificates of pkcs11.c, its requests and
--   answers. Pkcs11/Filled: how it is filled.
-- Proxy: OnProxy and ParseProxyString of proxy.c. Proxy/Ends: that its loop ends.
-- Restart: SaveAutoRestartList and LoadAutoRestartList of main.c. Restart/Active,
--   Restart/RoundTrip: what is saved is loaded.
-- Tests: concrete runs.
--
-- Parameters stand for code outside the repository: Windows and the C runtime (records `Win`,
-- `Locale`, `EchoWin`, `Gui`, `Files`, `Library`), the socket, and whether an allocation
-- succeeds. In manage.c the functions behind the handler pointers are parameters too.
--
-- Numbers and bounds. Numbers are natural numbers; the product of 32 bits in echo.c keeps its
-- wrap-around. A loop that is not structural takes fuel: `tokenize` one more than the line has
-- characters, the loops over tokens, arguments and lines one more than there are characters, the
-- scan of folders is structural on the depth, which starts at 20, the walk to the root takes at
-- most as many steps as there are groups, `config_parse` as many rounds as the file has
-- characters and one more, the loop of OnManagement one more than there are bytes, each round of
-- which takes at least one, and CloseManagement twice the commands and one more, as a combined
-- command is unqueued twice. Access outside a line in OnManagement is the result `fault`.
--
-- Not modelled: dialogs, windows, tray and log viewer, the registry, services, scripts and
-- process creation, saved passwords, certificates, the proxy settings, the HTTP requests of as.c,
-- the dialogs that answer the requests parsed in openvpn.c, the library under qrcodegen, and the
-- provider under plap. Most of it calls Windows, and the rest is independent of the parts above.
pub mod Base
pub mod Conn
pub mod Env
pub mod Misc
pub mod Config
pub mod Manage
pub mod Echo
pub mod Openvpn
pub mod Profiles
pub mod Import
pub mod Options
pub mod Pkcs11
pub mod Proxy
pub mod Restart
pub mod Tests
