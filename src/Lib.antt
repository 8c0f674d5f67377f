-- ===== src/Lib.antt =====
-- The browser application of istatd (files/graph.js): the page on which counters are chosen, drawn
-- in graphs, reloaded, and kept as dashboards. This library models its state and its operations.
--
-- The parts and how they interact:
--
--   * A graph (`GraphSurface`) is a set of counters, its series, and a format. Toggling a series
--     reloads the graph: it hands its series and a callback to the loader. Surface, with the
--     callback in Surface.Rendered.
--   * The grid (`GraphGrid`) holds the graphs and the one that is selected. Graphs are shared by
--     reference, so they live in a store under numbers. Grid.
--   * The loader (`Loader`) gathers what the graphs ask for, waits for a timer, and fetches it by one
--     request at a time; when the answer comes it calls the callbacks and goes on. Loader has the
--     methods, Loader.Session a whole session: each event is a callback being handed over, the timer
--     firing, or the request completing.
--   * The window (`theCurrentDates`, `theOriginalDates`, `theReloadInterval`, `autoRefreshTimer`) is
--     the range of dates, with the automatic refresh. Window.
--   * The page puts these together: `refresh`, `set_interval`, `resetDateRange`, closing graphs,
--     `toggleGraphing`. Page. The time slider is Page.Sliding, dashboards are Page.Dashboard.
--   * `repaint` makes the columns and the range of values of a plot from the answer. Plot, with the
--     entries of the answer that it passes over in Plot.Entries. What it writes
--     about the plot is Plot.Notes, the options are Plot.Options, and zooming is Page.Interaction.
--   * The tree of counters (`asCounterTree`, `formatTreeLevel`) is Tree.
--   * A hash in the location is a bookmark of the page, or asks for a dashboard by name. Bookmark.
--   * Settings are fetched from and saved to the server, by scope: loading a dashboard asks one scope
--     after another, and saving one sets the hash. Settings. The list of dashboards is Listing. The
--     progress bar, which counts what is under way, and the text of the error dialog are Progress.
--   * The users and who of them is logged in, by a cookie, are Users.
--   * Dialogs change the page: the range of dates (DateInput, with the setters of dates in
--     DateInput.Calendar), the size of the graphs (Sizing), the counters of all graphs at once
--     (Counters), which the dialog for cross references also calls (Xref). Dialog has the dialogs
--     themselves, one at a time with its inputs and buttons, and Dialog.Callbacks those that the page
--     opens with what their callbacks do. The labels of buttons and inputs are left out.
--   * The search for counters turns a pattern into a regular expression, keeps the leaves of the
--     server's list that match, and makes the tree of these. Filter, with the regular expressions in
--     Filter.Regexp.
--   * The menus, whose entries do all this, are Menus, the login form is Menus.Login, the tabs and the
--     panel that holds them are Menus.Tabs, and the clicks on a graph are Menus.Boxes.
--
-- How the model reads the source:
--
--   * A string is the list of its code units, an object used as a map is an association list in the
--     order of insertion. That is the order of `for ... in` unless a key is an array index; the ids
--     of the loader are such keys and are kept in ascending order. The statements about names do not
--     rest on an order. Names that every object inherits, such as "constructor", are not special.
--   * A date is a whole number of milliseconds, and arithmetic on dates is exact; the time interval
--     of a dashboard is kept in milliseconds where the source divides by 1000 and multiplies again.
--   * An operation of the page is a function to the new page and its outputs in order: calls of
--     timers, requests, callbacks, and `fault` for an exception that `guard` turns into a dialog.
--     The clock stands still while one event is handled, and the browser gives the handle of a timer.
--   * What a callback does when data arrives is not part of the loader, which is generic in the type
--     of the callbacks and of the answers. A body that `JSON.parse` refuses is `none`.
--   * The loop that makes the times of the rows has fuel, the length of the span in seconds, which is
--     enough since an interval is at least one second; where it is 0 the source does not end, so the
--     statements on what a repaint draws ask for a positive interval. Every other loop is over a list or a tree. Ids of callbacks are given out again after a million, so
--     the statement on the order of delivery is for sessions of a million events.
--   * The values of a plot are whole numbers, and its bounds are in twentieths. Both are exact, where
--     the source has doubles, so the statement on the range of values is for values of at most 2^40.
--   * An array that the source uses as a map is an association list as well. Its `sort` moves the keys
--     that are array indices, which Xref writes out.
--   * The time zone, `Sha256.hash`, the order of `sort` and of `_.sortBy`, regular expressions of other
--     forms than characters, dots and stars and, for settings, JSON are parameters; where a
--     statement needs that JSON reads back what it wrote, it says so. The calendar has no daylight
--     saving. The cookie plugin gives back the value that it was given.
--
-- Not modelled: the DOM, jQuery, Dygraph, jstree and Backbone, which are called; the sizes
-- of texts; widgets, resizing and what else the page's start sets up; `maybeParseCookie` and
-- `strftime`, which nothing calls; files/sha256.js and files/istatd-legend.js; and the C++ daemon.
pub mod Prelude
pub mod Dates
pub mod Loader
pub mod Window
pub mod Surface
pub mod Grid
pub mod Page
pub mod Tree
pub mod Plot
pub mod Bookmark
pub mod Settings
pub mod Counters
pub mod Xref
pub mod Sizing
pub mod DateInput
pub mod Users
pub mod Listing
pub mod Dialog
pub mod Filter
pub mod Menus
pub mod Progress
