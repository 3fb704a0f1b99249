-- ===== src/Lib.antt =====
-- A verification library for prax-sandbox: the gate through which all traffic of the sandbox leaves,
-- the confined file operations, the commands and the control of the container, the browser control,
-- the daemon, its client and the clipboard bridge.
--
-- The egress gate (prax_sandbox/egress_gate) runs in one asyncio event loop. `Gate._handle` reads a
-- request of the proxy, asks `Policy.decide` for a verdict, refuses literal addresses that are not
-- public, and calls `Gate.decide`, which returns at once or puts a question to a person; after an
-- allow it resolves the name, checks every address and connects to the first. `handle_admin` answers
-- questions and sets the taint.
--   Text                  str and bytes as lists of code points, with the methods that are called
--   EgressGate/Ip         gate.py, is_public, on addresses as numbers
--   EgressGate/Policy     policy.py: Rule, Policy, private_allowed, decide, from_dict
--   EgressGate/Gate       gate.py: the state of Gate, set_taint, decide, _ask, _forget, answer
--   EgressGate/Gate/Run   the interleavings of these by the event loop, as a function on events: a
--                         request, an answer, the taint, time that passes, and a waiting request
--                         that wakes up with its answer or gives up at its deadline
--   EgressGate/Proxy      gate.py: _handle from a request on as a list of effects, literal_refusal,
--                         public_address, _origin_form; Proxy/Reading: _read_head and the reading of
--                         the request line
--   EgressGate/Admin      gate.py: handle_admin, from the head of a request to the reply
--   EgressGate/Entry      __main__.py: main, from the environment to what is listened on
-- Times are whole numbers, and the clock is read once in each stretch of code without an `await`. A
-- dict is a function to Option, or a list where its order is seen. The reason of a verdict is data
-- in place of a formatted text.
--
-- The file operations (prax_sandbox/fileops.py), over a disk that gives what stands at each path:
--   Files/Disk            files, directories and symbolic links by path
--   Files/Realpath        os.path.realpath of Python 3.13, which follows each link once
--   Files/Kernel          how the system finds a path, over 40 links at most; Kernel/Agrees: on what
--                         realpath returns the two agree
--   Files/System          os.stat, os.makedirs, os.open with O_NOFOLLOW, os.write
--   Files/Confined        confine, write_file, read_file, push_tar
--   Files/Walk            os.walk as the files that it yields
--   Files/Listing         list_dir, grep and pull_tar
--   Files/Growth          what these may do to a disk; Files/Contained: that they do no more
--   Files/Users           resolve_user_root
-- No other process changes the disk while an operation runs. Permissions and full disks are left out.
--
-- The container (prax_sandbox/exec.py and prax_sandbox/control_plane.py):
--   Exec                  exec.py: the filter for docker, the command line, the time limit, the result
--   Exec/Shell            how a shell reads a command line, to state what the quotes of exec.py do
--   ControlPlane          control_plane.py: install_package, _container_ready, health,
--                         restart_sandbox, and rebuild_sandbox with its effects in their order
--   ControlPlane/Installs run_shell, run_command, and the recording of pip and npm installs
--   Text/Regex            the matching of regular expressions that the recording needs
--
-- The browser control (prax_sandbox/cdp_service.py):
--   Cdp/Frames            _ws_send and _ws_recv, on the bytes of a text and of a socket
--   Cdp/Targets           _remote, _cdp_http and _discover_ws_url
--   Cdp/Connect           _ws_connect: the address and the handshake
--   Cdp/Send              _send_cdp from the page to the reply; Cdp/Send/Proxied: the same through
--                         the daemon
--   Cdp/Replies           the loop of _send_cdp that waits for the reply
--   Cdp/Input             click_at, type_text, insert_text and scroll_page, over a browser
--   Cdp/Pages             navigate, get_page_text, get_page_url, screenshot, click_element, click_text
--                         and evaluate_js, over a browser; Cdp/Scripts: the scripts that they send
--   Cdp/Keys              _parse_key and press_key as the key events that they send
--
-- The daemon (prax_sandbox/daemon):
--   Daemon/Auth           auth.py: check_bearer
--   Daemon/Startup        config.py and __main__.py: from_env, validate_or_die, main
--   Daemon/Routes         app.py: the payload cap, the bearer check, the routes with their statuses;
--                         Routes/Limiter: _Limiter
--   Daemon/Services       what the routes call, filled with the control plane
--   Daemon/CdpProxy       cdp_proxy.py: cdp_ws and its bridge as a list of effects, cdp_json
--
-- The client (prax_sandbox_client/transport.py and client.py):
--   Client                make_transport, SandboxTransportError, _call
--   Client/Http           the methods of HttpTransport for files and health
--   Client/Plane          its other methods, which the daemon's control plane answers
--   Client/InProcess      the methods for files of InProcessTransport
--   Client/Facade         client.py: SandboxClient and get_client, over either transport
--   Client/Remote         the transport over the daemon's routes, beside the in-process one
--
-- The clipboard bridge (sandbox/clipboard-bridge.py), with events between the points where it waits:
--   Clipboard             poll_clipboard and handler
--
-- Base has what all share: tests on numbers, lists, equality of keys and dicts. The modules named
-- Tests run the definitions on concrete inputs.
--
-- Parameters are the code of Python and of its library that is not in the repository: urlsplit, int,
-- ipaddress, getaddrinfo, json.loads, fnmatch, the reading of a file, docker, the clock, httpx,
-- urlopen, the connections, the length of a body in JSON, the inode of a path, what a device or a
-- pipe gives to a reader, and the path that the web server takes from a request. No hypotheses are
-- made about them, but that the clock does not go back and a sleep takes its time, which the wait
-- for the container needs, and that a plain path is taken from a request as it stands, which a page
-- through the daemon needs. In that wait a `docker exec` may never return, and then the wait does not
-- either; elsewhere a call of what is outside is one that returns, also a `docker exec` and the read
-- of a pipe. Of a text in JSON only this is modelled, that a name which is not UTF-8 has no form. Case conversion and the
-- classes of characters are Python's below code point 256. Fuel stands in `decimal`, which has one
-- more than the value of the number, and a number has no more digits than that; in `realpath`, which
-- has as many links as the disk has entries, and follows none twice; in `kernel`, where it is the
-- system's own limit of 40 links; in `walk`, which has one more than the longest path of the disk;
-- in `search_regex`, which has one more than the length of the text for each repetition; and in
-- `container_ready`, which has one turn more than the half seconds of its time-out. Every other
-- recursion is structural.
--
-- Not modelled: the sockets and the copying of bytes once a connection stands, the log, the texts of
-- the replies, time-outs of requests; what a script does in a page; the lock per user, and _iter_sse
-- and _safe_reason of transport.py.
pub mod Base
pub mod Cdp
pub mod Client
pub mod Clipboard
pub mod ControlPlane
pub mod Daemon
pub mod EgressGate
pub mod Exec
pub mod Files
pub mod Text
