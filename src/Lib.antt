-- ===== src/Lib.antt =====
-- The web frontend of Loci Terminal (frontend/src), a page of terminals in workspaces: what its
-- store, its connections and its input do, and what holds of them.
--
-- The parts and how they interact. `Store` models frontend/src/stores/appStore.ts. A `World` is the
-- zustand state beside the module's two Maps `busyTrack` and `idleTimers` and the browser's pending
-- timeouts; each method is a function on the state or on the world (`setActiveSession` is
-- `set_active_session`, and so on), and each part of an `async` method after its last `await` is one
-- function that takes the answers of the server and the world in which it resumes. `Store/Steps`
-- puts them together: `Step` is one event of the page, with any answer of the server and any
-- interleaving, and `Reach` the worlds that a page can come to; `Store/Spec` is the small machine
-- that they implement for each session; `Store/Mirror` runs the store with a server, an interface
-- that is a parameter, and compares what both list; `Store/Clicks` is the click on a toast of
-- frontend/src/components/Toast/ToastContainer.tsx. `Terminal` models
-- frontend/src/hooks/useTerminal.ts with frontend/src/hooks/shiftEnter.ts and the sending of
-- frontend/src/components/Terminal/MobileInputBar.tsx: `Line` is a `TerminalInstance` with the
-- sockets, tickets and timeouts of the browser, `Connect` its life as a step relation, `Input` what
-- the user types, `Ticket` the request for a ticket and the address of a socket, `Renderer` the life
-- of the WebGL addon, `Resize` what the server is told of the size, `Backoff` the delay of a
-- reconnection, `Themed` the options and the theme of each xterm, with `Theme/System`, the
-- preference that the browser reports, `Mount` where the element of each cached terminal is, as the
-- first effect of the hook moves it, `Message` what the server sends: every chunk of output calls
-- `markSessionOutput` of the store. `Upload` is the drop of files of
-- frontend/src/components/Terminal/TerminalView.tsx with frontend/src/api/upload.ts. `Client` models
-- the requests of frontend/src/api/client.ts, and is what the store takes as its `Api`;
-- `Client/Sent` is what becomes of a path, in which the ids stand as they are, in `fetch`. `Theme`
-- models frontend/src/lib/theme.ts, frontend/src/stores/themeStore.ts and
-- frontend/src/hooks/useEffectiveTheme.ts; `App` models the state of frontend/src/App.tsx and
-- frontend/src/components/Auth/LoginForm.tsx; the listener of the first for visibility calls
-- `clearSessionUnread` of the store. `View` models what the page draws: `View/Html` is a tree of
-- elements with their attributes, styles and handlers, `View/Sidebar` is
-- frontend/src/components/Sidebar/Sidebar.tsx and `View/TabBar`
-- frontend/src/components/Terminal/TabBar.tsx, whose handlers call the store, `View/Toasts`
-- frontend/src/components/Toast/ToastContainer.tsx with its timeouts, `View/Media`
-- frontend/src/hooks/useMediaQuery.ts, `View/Login` the form, `View/InputBar` the bar for small
-- screens, `View/Screen` frontend/src/components/Terminal/TerminalView.tsx, and `View/Page` the tree
-- of frontend/src/App.tsx with frontend/src/components/Terminal/TerminalPanel.tsx; `View/Controls`
-- puts the controls of the bar, the sidebar and the toasts on one desk over the store, and
-- `View/Served` the first two on a desk over the store and the server of `Store/Mirror`; the
-- controls of the bar and the sidebar run a call in the world in which it is answered, which
-- `View/TabBar/Safe` and `View/Sidebar/Menu` allow to be a later one than that of the drawing,
-- `View/TabBar/Flight` has two calls in flight, and `View/Served` answers each at once; `View/Trim`
-- is `String.prototype.trim`. `Whole` runs the store, the listener of the page and the terminals of
-- all sessions together. `Common` and `Dict` hold what the parts share.
--
-- Choices. Identifiers are texts, numbers are natural numbers, times are whole milliseconds of one
-- clock that `Date.now()` and the timeouts share. Objects and Maps are lists of entries in insertion
-- order; that JavaScript lists integer-like keys first, and the keys of prototypes, are left out. A
-- rejected promise is `none`, which is a `fetch` that fails or an answer that is no JSON, and an
-- operation that rejects has written nothing to the store; the client does not look at the status of
-- an answer, so that a refusal with a JSON body resolves, with what it sends for a value. An
-- operation gets one answer for each argument of a call, which is enough since none makes a call
-- twice, but `init` where the server lists a workspace twice. `sessionsEqual` compares references
-- first to save the loop; that test is left out. The double that a reconnection's base and jitter
-- add up to is given by where it lies between 4/5 and 6/5 of the base, both included, as a fraction
-- of whole numbers, so that no rounding is left out. Sockets are numbers in order of construction.
-- The peer's close of a socket is one event of `Connect.Step`; the states of a closing handshake are
-- looked at in `Doubles`. The encoder of texts is a parameter. Numbers in styles are written as
-- texts, and React's keys and refs are left out. No definition needs fuel but the printing of a
-- number, which has one more than the number, and a number has no more digits than that.
--
-- Not modelled: how the browser renders a tree, bubbling of events, xterm, its addons and the page's
-- elements, frontend/src/lib/contrast.ts, whose arithmetic is real and which the tests alone use,
-- and the server, which is another program: it is the interface of `Store/Mirror`, whose laws say
-- what its requests do to the lists of ids.
pub mod Common
pub mod Dict
pub mod Store
pub mod Terminal
pub mod Theme
pub mod App
pub mod Client
pub mod View
pub mod Whole
mod Tests
