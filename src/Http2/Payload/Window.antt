-- ===== src/Http2/Payload/Window.antt =====
-- Window updates applied by `http2_frame_handle_window_update`,
-- src/protocol/http2/halmos_http2_frame.c.
