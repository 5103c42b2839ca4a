-- ===== src/Lib.antt =====
-- A model of go-httpserver, a layer over net/http that gives handlers a Context, on which they set
-- up one response that is sent when the chain of middleware and handler has returned.
--
-- The parts, and the files that model them. A request enters by ServeHTTP (server.go), which wraps
-- the connection in a StreamWriter (stream_writer.go) and runs the ServeMux; the route that Handle
-- registered (router.go) makes a Context (context.go), runs the middleware around the handler, and
-- has the Context write the response (response.go). A handler with a request struct (request.go) is
-- first given its struct, by binding as its compiled tags say (request_tags.go, request_bind.go,
-- request_body.go, request_path_unsafe.go).
--   Base, Effect: shared helpers; computations on a state that return or panic.
--   State: the state of one request: the header map and the StreamWriter's fields, the fields of
--     Context, and the calls that the underlying writer has had. An Action is a Go function on that
--     state.
--   StreamWriter: stream_writer.go, a function for each method.
--   Context: context.go (NewResponse, Hijack, Response, Hijacked, and the delegates to the
--     request).
--   Response: response.go, the handle and its setters, each behind Response.check.
--   Api: the calls that application code makes on a Context, and sequences of them. Api.Promise is
--     the same interface as a specification that has no tickets: a handle is live or it is not.
--     Api.View reads a state of the Context, and the handles that are out, as a state of the
--     specification.
--   Write: response.go, writeResponse: a function for each branch of its switches.
--   Router: router.go (Group, WithLogger, Handle with its dispatcher, funcObjects).
--   Server: server.go, ServeHTTP with the recovery and the access log.
--   Server.Lifecycle: server.go, NewServer with the http.Server that it fills in, starter, runner,
--     cleaner.
--   PathValues: request_path_unsafe.go, getPathValues.
--   Tags, Tags.Compile: request_tags.go, the compiled tags as data, createTags with its cache, and
--     checkRecursively over a description of the fields of a struct. Tags.Shape says, without the
--     code, which structs are well tagged.
--   Bind, Bind.Body, Bind.Library: request_bind.go (parse and the binder of each source),
--     request_body.go, and what these call outside the repository. Bind.Claims says, without the
--     code, which binder a media type belongs to.
--   RequestHandler: request.go (requestHandler, RequestParser, MiddlewareParser).
--   Bind.Timed: bindFullTextBodyWithTimeout as its goroutine, channel, timer and select, which take
--     turns in any order (Schedule).
--   Tags.Shared: createTags in many goroutines, with the mutex and the cache that they share.
--   Tags.Sliced: checkRecursively with its index paths as Go slices (Slices: arrays on a heap, and
--     the built-in append): those passed on are appended to in place, those recorded are copied.
--   Router.Sharing: Group and WithLogger on routers whose middleware are Go slices, beside an
--     application that writes its own arrays.
--   Examples: the theorems at concrete inputs.
-- The child modules of a part hold its proofs, named for what they prove.
--
-- How the code is read. The http.ResponseWriter below the StreamWriter, and the JSON encoder, are a
-- Platform: its functions answer from the calls made so far, so that a connection may fail at any
-- point, and which optional interfaces it has is part of it. What common.BindStructWithTag, the
-- parsers of net/http and mime, the JSON decoder and the character sets do is a BindLibrary over
-- any type of request structs. The body functions of StreamBody and Hijack, which are application
-- code, are trees of calls of their writer, which branch on the answers; handlers and middleware
-- are any computation on the state, and where a theorem needs that they use nothing but the
-- exported API, a sequence of Api operations. A panic is an outcome that carries its value. Tickets
-- count modulo 2 ^ 64, as uint64 does; bytesWritten is the bit pattern of an int64. The status is
-- an integer. A Go map is an association list that is read by lookup.
--
-- In Bind the select of bindFullTextBodyWithTimeout is an argument, the Race: the binder is done,
-- or it is given up and goes on to write the struct in any way. Bind.Timed has the select. There
-- the code of the goroutine is any transition system, which reads the body and writes the struct
-- and may go on for ever; what such code does when it ends is compared with charsetReader and the
-- binder. A Read waits until it is answered, and gets an error once the body is closed. A goroutine
-- makes one such step at a time, and so does a call of createTags, whose steps are the type test,
-- Lock, the lookup, the compilation, the store, and the deferred Unlock.
--
-- The dispatcher of Handle recurs on an index into the middleware; in the model it recurs on fuel
-- that the route sets to the number of middlewares, which is as many calls as the index can make.
--
-- What the system answers outside a request is given: fmt.Sprintf of a port, and the answers of
-- Serve and Shutdown, are arguments of the functions of Server.Lifecycle.
--
-- Not modelled: how the lifecycle controller runs what is registered with it, log messages other
-- than the access log, the route log and the events of runner and cleaner, and that the mirror of
-- http.Request in request_path_unsafe.go has the layout of the real one. There are no clocks: a
-- timer fires at some point, and of two steps that could happen either may come first.
pub mod Base
pub mod Effect
pub mod Schedule
pub mod Slices
pub mod State
pub mod StreamWriter
pub mod Context
pub mod Response
pub mod Api
pub mod Write
pub mod Router
pub mod Server
pub mod PathValues
pub mod Tags
pub mod Bind
pub mod RequestHandler
mod Examples
